-- ===== src/Sources/Hooks.antt =====
-- Installing the git hooks: `install_hooks` of crates/sources/src/git.rs. The state is, for each
-- hook, the file of its name and its backup beside it; the file system's calls and the text of the
-- rendered hooks are parameters.
pub mod Kept
use contextd.Prelude.{
  ℕ, Bool, true, false, ◌||◌, Option, none, some, List, [], ◌∷◌, if◌then◌else◌, map,
}
use contextd.Prelude.Result.{Result, ok, err}
use contextd.Text.{Text, str, contains}

abbrev contextd_hook_marker : Text
contextd_hook_marker = str "# contextd-managed hook"

abbrev legacy_contextd_hook_marker : Text
legacy_contextd_hook_marker = str "# contextd git post-commit hook"

abbrev legacy_managed_marker : Text
legacy_managed_marker = str "# contextd-managed post-commit hook"

-- A file: its bytes and its mode.
pub record HookFile : Type 0 where
  pub bytes : List ℕ
  pub mode : ℕ

-- The files of one hook: `hooks_dir/<name>` and `hooks_dir/<name>.contextd-backup`.
pub record Slot : Type 0 where
  pub hook : Option HookFile
  pub backup : Option HookFile

-- `std::fs`: the text of a file, if it can be read as one; whether a hook can be renamed to its
-- backup; what `write`, `metadata` and `set_permissions` answer and leave at the path.
pub record HookDisk (E : Type 0) : Type 0 where
  pub read_to_string : HookFile → Option Text
  pub rename : HookFile → Result E (Unit {0})
  pub write : Text → Option HookFile → Result E (Unit {0}) × Option HookFile
  pub metadata : Option HookFile → Result E ℕ
  pub set_permissions : ℕ → Option HookFile → Result E (Unit {0}) × Option HookFile

-- `unwrap_or_default`
abbrev or_default : Option Text → Text
or_default none = []
or_default (some text) = text

-- `fs::read_to_string(&hook_path).unwrap_or_default()`
abbrev pub text_of : {E : Type 0} → HookDisk E → HookFile → Text
text_of disk file = or_default (HookDisk.read_to_string disk file)

unfoldable pub is_contextd_hook : Text → Bool
is_contextd_hook contents =
    contains contents contextd_hook_marker
    || contains contents legacy_managed_marker
    || contains contents legacy_contextd_hook_marker

-- The first half of `install_one`: `ok false` where it returns early and leaves the files alone.
unfoldable pub move_aside : {E : Type 0} → HookDisk E → Slot → Result E Bool × Slot
unfolding is_contextd_hook
move_aside disk slot = elim slot.hook [
  | none ↦ (ok true, slot)
  | some existing ↦
      if is_contextd_hook (text_of disk existing) then (ok true, slot) else elim slot.backup [
        | some held ↦ (ok false, slot)
        | none ↦ elim (HookDisk.rename disk existing) [
          | err e ↦ (err e, slot)
          | ok done ↦ (ok true, record { hook = none; backup = some existing })
        ]
      ]
]

-- The mode 0o755
abbrev executable : ℕ
executable = 493

abbrev at_hook :
    {E : Type 0} → Slot → Result E (Unit {0}) × Option HookFile → Result E (Unit {0}) × Slot
at_hook slot (answer, left) = (answer, record { hook = left; backup = slot.backup })

-- `metadata(...)?`, and the permissions
unfoldable pub make_executable :
    {E : Type 0}
    → HookDisk E
    → Slot
    → Result E (Unit {0}) × Option HookFile
    → Result E (Unit {0}) × Slot
make_executable disk slot (err e, left) = at_hook slot (err e, left)
make_executable disk slot (ok done, left) = elim (HookDisk.metadata disk left) [
  | err e ↦ at_hook slot (err e, left)
  | ok mode ↦ at_hook slot (HookDisk.set_permissions disk executable left)
]

-- The second half of `install_one`.
unfoldable pub write_hook :
    {E : Type 0} → HookDisk E → Text → Result E Bool × Slot → Result E (Unit {0}) × Slot
unfolding make_executable
write_hook disk rendered (err e, slot) = (err e, slot)
write_hook disk rendered (ok false, slot) = (ok tt, slot)
write_hook disk rendered (ok true, slot) =
    make_executable disk slot (HookDisk.write disk rendered slot.hook)

unfoldable pub install_one : {E : Type 0} → HookDisk E → Text → Slot → Result E (Unit {0}) × Slot
unfolding move_aside write_hook
install_one disk rendered slot = write_hook disk rendered (move_aside disk slot)

-- `?` in the loop: an error leaves the later hooks as they were.
unfoldable pub and_then :
    {E : Type 0}
    → Result E (Unit {0}) × Slot
    → List Slot
    → Result E (Unit {0}) × List Slot
    → Result E (Unit {0}) × List Slot
and_then (err e, slot) untouched later = (err e, slot ∷ untouched)
and_then (ok done, slot) untouched (answer, slots) = (answer, slot ∷ slots)

abbrev pub slots_of : List (Text × Slot) → List Slot
slots_of hooks = map (λ h. h.1) hooks

-- `for spec in HOOKS`, each with its rendered text
unfoldable pub install_each :
    {E : Type 0} → HookDisk E → List (Text × Slot) → Result E (Unit {0}) × List Slot
unfolding install_one and_then
install_each disk [] = (ok tt, [])
install_each disk ((rendered, slot) ∷ hooks) =
    and_then (install_one disk rendered slot) (slots_of hooks) (install_each disk hooks)

-- `found` is what `git_hooks_dir` answers, and whether a directory is there.
unfoldable pub install_hooks :
    {E : Type 0}
    → HookDisk E
    → Result E Bool
    → E
    → List (Text × Slot)
    → Result E (Unit {0}) × List Slot
unfolding install_each
install_hooks disk (err e) not_found hooks = (err e, slots_of hooks)
install_hooks disk (ok false) not_found hooks = (err not_found, slots_of hooks)
install_hooks disk (ok true) not_found hooks = install_each disk hooks
