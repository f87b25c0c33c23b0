-- ===== src/VmSnapshot.antt =====
-- privacyguard/vm_snapshot.py: a virtual machine set back to a snapshot, and the lists of machines and
-- snapshots.
use privacy_toolkit.Prelude.{String, Bool, not, List, [], ◌∷◌, if◌then◌else◌}
use privacy_toolkit.Exec.{pure, gets, catch_all, catch_if, is_process_error, ◌>>=◌, ◌>>◌}
use privacy_toolkit.Host.{Host, Call, run, run_checked}
use privacy_toolkit.Text.{Chars, chars, strip_chars, splitlines}
use privacy_toolkit.FirewallBackup.{Argv}

abbrev kept_line : Chars → List Chars → List Chars
kept_line [] ls = ls
kept_line (c ∷ s) ls = (c ∷ s) ∷ ls

-- `[l.strip() for l in … if l.strip()]`
unfoldable pub stripped_lines : List Chars → List Chars
unfolding strip_chars
stripped_lines [] = []
stripped_lines (l ∷ ls) = kept_line (strip_chars l) (stripped_lines ls)

abbrev pub vbox_restore : String → String → Argv
vbox_restore vm_name snapshot_name =
    "VBoxManage" ∷ "snapshot" ∷ vm_name ∷ "restore" ∷ snapshot_name ∷ []

abbrev pub virsh_revert : String → String → Argv
virsh_revert domain snapshot_name =
    "virsh" ∷ "snapshot-revert" ∷ domain ∷ snapshot_name ∷ "--running" ∷ []

module _ (H : Host) where
  -- The lines that a program prints; none where it fails.
  unfoldable pub printed_lines : Argv → Call H (List Chars)
  unfolding chars splitlines
  printed_lines argv =
      catch_all (do out ← run_checked H argv; pure (splitlines (chars out.stdout))) (pure [])

  unfoldable pub list_vbox_vms : Call H (List Chars)
  unfolding stripped_lines
  list_vbox_vms = do
    lines ← printed_lines ("VBoxManage" ∷ "list" ∷ "vms" ∷ [])
    pure (stripped_lines lines)

  unfoldable pub list_vbox_snapshots : String → Call H (List Chars)
  list_vbox_snapshots vm_name = printed_lines ("VBoxManage" ∷ "snapshot" ∷ vm_name ∷ "list" ∷ [])

  unfoldable pub list_virsh_domains : Call H (List Chars)
  list_virsh_domains = printed_lines ("virsh" ∷ "list" ∷ "--all" ∷ [])

  unfoldable pub list_virsh_snapshots : String → Call H (List Chars)
  list_virsh_snapshots domain = printed_lines ("virsh" ∷ "snapshot-list" ∷ domain ∷ [])

  unfoldable pub reset_vbox_snapshot : String → String → Bool → Call H (Unit {0})
  reset_vbox_snapshot vm_name snapshot_name power_off_first = do
    there ← gets (H.which "VBoxManage")
    if not there
        then pure tt
        else catch_if is_process_error
            (do
              if power_off_first
                  then (do run H ("VBoxManage" ∷ "controlvm" ∷ vm_name ∷ "poweroff" ∷ []); pure tt)
                  else pure tt
              run_checked H (vbox_restore vm_name snapshot_name)
              pure tt)
            (pure tt)

  unfoldable pub reset_virsh_snapshot : String → String → Call H (Unit {0})
  reset_virsh_snapshot domain snapshot_name = do
    there ← gets (H.which "virsh")
    if not there
        then pure tt
        else catch_if is_process_error
            (do run_checked H (virsh_revert domain snapshot_name); pure tt) (pure tt)
