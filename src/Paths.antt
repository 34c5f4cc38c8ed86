-- ===== src/Paths.antt =====
-- `expand_tilde` of server/src/handlers/mod.rs, and `bytes_to_path` and `expand_tilde_path` of
-- server/src/handlers/file.rs. A path is its bytes; `home` is what `env::var("HOME")` gives.
pub mod Laws
use text.Mathlib.Text.{starts_with}
use emacs_tramp_rpc.Prelude.{ℕ, String, ◌<>◌, Option, none, some, List, str_eq, if◌then◌else◌}

-- `&path[1..]` of a path that starts with an ASCII character.
tail_text : String → String
tail_text String.[] = ""
tail_text (String.◌∷◌ c s) = s

under_home : Option String → String → String
under_home none path = path
under_home (some home) path = home <> tail_text path

home_itself : Option String → String → String
home_itself none path = path
home_itself (some home) path = home

unfoldable pub expand_tilde : Option String → String → String
unfolding under_home home_itself tail_text
expand_tilde home path =
    if starts_with path "~/"
    then under_home home path
    else if str_eq path "~"
    then home_itself home path
    else path

-- Rust's text of bytes: `to_string_lossy`, and the UTF-8 of a text.
pub record Encoding : Type 0 where
  pub lossy : List ℕ → String
  pub utf8 : String → List ℕ

module _ (enc : Encoding) (home : Option String) where
  unfoldable pub expand_tilde_path : List ℕ → List ℕ
  expand_tilde_path path =
      let s = enc.lossy path in
      let expanded = expand_tilde home s in if str_eq expanded s then path else enc.utf8 expanded

  unfoldable pub bytes_to_path : List ℕ → List ℕ
  unfolding expand_tilde_path
  bytes_to_path bytes = expand_tilde_path bytes
