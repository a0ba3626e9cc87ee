-- ===== src/Plugins/Tests.antt =====
-- Runs of the hooks.
use peretum.Plugins.Rewrite.{RewriteRule, before_proxy, path_to}
use peretum.Plugins.Settings.{bool, get_string}
use peretum.Prelude.Bytes.{codes, equal}
use peretum.Prelude.{◌≡◌, refl, Bool, true, false, [], ◌∷◌, ◌++◌}

abbrev append_x : Bool → RewriteRule
append_x break_flag = record {
  matches = λ path. true;
  replace_all = λ path. path ++ codes "x";
  break_flag = break_flag;
  redirect = [];
}

rules_add_up :
    before_proxy (append_x false ∷ append_x true ∷ append_x true ∷ []) [] (codes "/")
    ≡ path_to (codes "/xx")
unfolding before_proxy equal
rules_add_up = refl

other_types_are_empty : get_string ((codes "k", bool true) ∷ []) (codes "k") ≡ []
unfolding get_string equal
other_types_are_empty = refl
