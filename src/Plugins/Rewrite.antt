-- ===== src/Plugins/Rewrite.antt =====
-- plugins/rewrite/rewrite.go, with `regexp` as parameters: the match and the replacement of a rule.
use peretum.Prelude.Bytes.{Bytes, codes, equal}
use peretum.Prelude.Text.{is_empty}
use peretum.Prelude.{ℕ, Bool, ◌&&◌, not, List, [], ◌∷◌, ◌++◌, if◌then◌else◌}

pub record RewriteRule : Type 0 where
  pub matches : Bytes → Bool
  pub replace_all : Bytes → Bytes
  pub break_flag : Bool
  pub redirect : Bytes

-- The path to proxy, or the status and the target of a redirect.
pub data Rewritten : Type 0 where
  path_to : Bytes → Rewritten
  redirected_to : ℕ → Bytes → Rewritten

-- 63 is "?".
abbrev query_text : Bytes → Bytes
query_text [] = []
query_text (c ∷ query) = 63 ∷ c ∷ query

abbrev applies : RewriteRule → Bytes → Bool
applies rule path = rule.matches path && not (equal (rule.replace_all path) path)

-- The loop over the rules, in the order in which `range` gives them.
unfoldable pub before_proxy : List RewriteRule → Bytes → Bytes → Rewritten
before_proxy [] raw_query path = path_to path
before_proxy (rule ∷ rules) raw_query path =
    let next = before_proxy rules raw_query path in
    let further = before_proxy rules raw_query (rule.replace_all path) in
    if not (applies rule path)
    then next
    else if not (is_empty rule.redirect)
    then redirected_to (if equal rule.redirect (codes "redirect") then 302 else 301)
        (rule.replace_all path ++ query_text raw_query)
    else if rule.break_flag
    then path_to (rule.replace_all path)
    else further
