-- ===== src/FirewallBackup/Paths.antt =====
-- The paths of the two backups: neither is empty, and they differ, whatever the home directory, the
-- label and the time are.
use Prim.Native.Char.{code}
use Prim.Native.String.{◌++◌ as append_text}
use text.Mathlib.TextLemmas.{
  append_cancel_left, append-ne-nil_of_right_ne-nil, cons-append, head-eq_of_cons-eq, cons-ne-nil,
}
use privacy_toolkit.Prelude.{
  String, ◌≡◌, sym, ◌∙◌, ap, ◌≢◌, false, arith, str_eq, eq_iff, format, Bool-cases, inl, inr,
}
use privacy_toolkit.Host.{Host}
use privacy_toolkit.FirewallBackup.{backup_path4, backup_path6}

str_eq-false : (s t : String) → s ≢ t → str_eq s t ≡ false
str_eq-false s t h = elim (Bool-cases (str_eq s t)) [
  | inl e ↦ absurd (h ((eq_iff s t).0 e))
  | inr e ↦ e
]

t_not_6 : (x y : String) → append_text "tables-" x ≢ append_text "6tables-" y
t_not_6 x y e =
    let h =
      head-eq_of_cons-eq (sym (cons-append "t" "ables-" x) ∙ e ∙ cons-append "6" "tables-" y) in
    let n : code "t" ≡ code "6" = ap code h in omega arith

module _ (H : Host) (label ts : String) where
  pub backup_path4-ne-empty : str_eq (backup_path4 H label ts) "" ≡ false
  unfolding format
  backup_path4-ne-empty = str_eq-false _ _ (
      append-ne-nil_of_right_ne-nil H.home
        (λ e. cons-ne-nil "/" _ (sym (cons-append "/" ".privacyguard_backups/ip" _) ∙ e)))

  pub backup_paths_differ : str_eq (backup_path6 H label ts) (backup_path4 H label ts) ≡ false
  unfolding format
  backup_paths_differ = str_eq-false _ _ (λ e.
      t_not_6 _ _ (
        sym (append_cancel_left "/.privacyguard_backups/ip" _ _ (append_cancel_left H.home _ _ e))))
