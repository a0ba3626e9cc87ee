-- ===== src/Config/Tests.antt =====
-- Runs of the parsers, and the theorems at concrete inputs.
use peretum.Config.Listeners.{NetEnv}
use peretum.Config.{parse_server_names, names_of}
use peretum.Prelude.Bytes.{codes}
use peretum.Prelude.{◌≡◌, refl, Bool, true, false, none, some, [], ◌∷◌}

abbrev net_env : NetEnv
net_env = record {
  has_port = λ s. true;
  atoi = λ s. none;
  join_host_port = λ host port. host;
  itoa = λ n. [];
}

names_without_ports : parse_server_names (codes "a:80, b") ≡ codes "a" ∷ codes "b" ∷ []
unfolding parse_server_names names_of peretum.Prelude.Text.split_on peretum.Prelude.Text.trim_space
    peretum.Prelude.Text.trim_left peretum.Prelude.Text.trim_right peretum.Prelude.Text.before
names_without_ports = refl
