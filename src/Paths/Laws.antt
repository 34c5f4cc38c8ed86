-- ===== src/Paths/Laws.antt =====
-- What tilde expansion keeps and what it loses.
use text.Mathlib.Text.{starts_with}
use emacs_tramp_rpc.Prelude.{
  ℕ, String, ◌≡◌, ◌≢◌, refl, sym, ap, subst, ◌∙◌, false, inl, inr, Bool-cases, Option, List, str_eq,
  eq_iff, eq_refl,
}
use emacs_tramp_rpc.Paths.{expand_tilde, Encoding, expand_tilde_path, bytes_to_path}

expand_tilde_plain :
    (home : Option String) (path : String)
    → starts_with path "~/" ≡ false
    → str_eq path "~" ≡ false
    → expand_tilde home path ≡ path
unfolding expand_tilde
expand_tilde_plain home path p q = rw (p, expand_tilde) (rw q refl)

-- A path whose text is neither `~` nor begins with `~/` reaches the system with exactly the bytes that
-- the client sent, also where they are not UTF-8.
pub bytes_to_path_plain :
    (enc : Encoding) (home : Option String) (bytes : List ℕ)
    → starts_with (enc.lossy bytes) "~/" ≡ false
    → str_eq (enc.lossy bytes) "~" ≡ false
    → bytes_to_path enc home bytes ≡ bytes
unfolding bytes_to_path expand_tilde_path
bytes_to_path_plain enc home bytes p q =
    rw (expand_tilde_plain home (enc.lossy bytes) p q) (rw (eq_refl (enc.lossy bytes)) refl)

differs : (s t : String) → s ≢ t → str_eq s t ≡ false
differs s t ne = elim (Bool-cases (str_eq s t)) [
  | inl same ↦ absurd (ne ((eq_iff s t).0 same))
  | inr other ↦ other
]

expanded_bytes :
    (enc : Encoding) (home : Option String) (a : List ℕ)
    → expand_tilde home (enc.lossy a) ≢ enc.lossy a
    → bytes_to_path enc home a ≡ enc.utf8 (expand_tilde home (enc.lossy a))
unfolding bytes_to_path expand_tilde_path
expanded_bytes enc home a ne = rw (differs (expand_tilde home (enc.lossy a)) (enc.lossy a) ne) refl

-- Below the home directory only the lossy text of the bytes counts: where the expansion changes the
-- text, all byte strings with the same text, such as names that differ in bytes that are not UTF-8,
-- become one path.
pub bytes_to_path_conflates :
    (enc : Encoding) (home : Option String) (a b : List ℕ)
    → enc.lossy a ≡ enc.lossy b
    → expand_tilde home (enc.lossy a) ≢ enc.lossy a
    → bytes_to_path enc home a ≡ bytes_to_path enc home b
bytes_to_path_conflates enc home a b e ne =
    expanded_bytes enc home a ne
    ∙ ap (λ s. enc.utf8 (expand_tilde home s)) e
    ∙ sym (expanded_bytes enc home b (subst (λ s. expand_tilde home s ≢ s) e ne))
