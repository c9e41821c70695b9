-- ===== src/Sources/Hooks/Kept.antt =====
-- What `install_hooks` of crates/sources/src/git.rs does to the hooks of others.
use contextd.Prelude.{
  ◌≡◌, refl, ◌∙◌, ◌⊎◌, inl, inr, Bool, true, false, Option, some, List, [], ◌∷◌, Bool-cases,
  Option-cases,
}
use contextd.Prelude.Result.{Result, ok, err, Result-cases}
use contextd.Text.{Text}
use contextd.Sources.Hooks.{
  HookFile, Slot, HookDisk, text_of, is_contextd_hook, move_aside, make_executable, write_hook,
  install_one, and_then, install_each, slots_of, install_hooks,
}

-- The file is a hook of someone else, or the backup of one.
abbrev pub Holds : {E : Type 0} → HookDisk E → Slot → HookFile → Type 0
Holds disk slot file =
    ((slot.hook ≡ some file) × (is_contextd_hook (text_of disk file) ≡ false))
    ⊎ (slot.backup ≡ some file)

-- Hook by hook, each file held before is held after.
pub data Preserves {E : Type 0} (disk : HookDisk E) : List Slot → List Slot → Type 0 where
  nil : Preserves disk [] []
  cons :
      (before after : Slot)
      → (slots left : List Slot)
      → ((file : HookFile) → Holds disk before file → Holds disk after file)
      → Preserves disk slots left
      → Preserves disk (before ∷ slots) (after ∷ left)

make_executable-backup :
    {E : Type 0} (disk : HookDisk E) (slot : Slot) (written : Result E (Unit {0}) × Option HookFile)
    → Slot.backup (make_executable disk slot written).1 ≡ slot.backup
unfolding make_executable
make_executable-backup disk slot (err e, left) = refl
make_executable-backup disk slot (ok done, left) =
    elim (Result-cases (HookDisk.metadata disk left)) [
      | inl (mode, h) ↦ rw (make_executable, h)
      | inr (e, h) ↦ rw (make_executable, h)
    ]

-- Writing the hook holds what is behind its name, if it was moved aside first.
write_hook-Holds :
    {E : Type 0} (disk : HookDisk E) (rendered : Text) (moved : Result E Bool × Slot)
    (file : HookFile)
    → (moved.0 ≡ ok true → moved.1.backup ≡ some file)
    → Holds disk moved.1 file
    → Holds disk (write_hook disk rendered moved).1 file
unfolding write_hook
write_hook-Holds disk rendered (err e, slot) file safe held = held
write_hook-Holds disk rendered (ok false, slot) file safe held = held
write_hook-Holds disk rendered (ok true, slot) file safe held =
    inr (make_executable-backup disk slot (HookDisk.write disk rendered slot.hook) ∙ safe refl)

-- A backup stays, and a hook of someone else is left alone or moved to its backup.
move_aside-Holds :
    {E : Type 0} (disk : HookDisk E) (slot : Slot) (file : HookFile)
    → Holds disk slot file
    → ((move_aside disk slot).0 ≡ ok true → Slot.backup (move_aside disk slot).1 ≡ some file)
      × Holds disk (move_aside disk slot).1 file
unfolding move_aside
move_aside-Holds disk slot file (inl (here, foreign)) = elim (Option-cases slot.backup) [
  | inl empty ↦ elim (Result-cases (HookDisk.rename disk file)) [
    | inl (done, h) ↦ rw (move_aside, here, foreign, empty, h) (λ moved. refl, inr refl)
    | inr (e, h) ↦ rw (move_aside, here, foreign, empty, h) (λ moved. cc, inl (here, refl))
  ]
  | inr (held, h) ↦ rw (move_aside, here, foreign, h) (λ moved. cc, inl (here, refl))
]
move_aside-Holds disk slot file (inr h) = elim (Option-cases slot.hook) [
  | inl empty ↦ rw (move_aside, empty) (λ moved. h, inr h)
  | inr (existing, here) ↦ elim (Bool-cases (is_contextd_hook (text_of disk existing))) [
    | inl ours ↦ rw (move_aside, here, ours) (λ moved. h, inr h)
    | inr foreign ↦ rw (move_aside, here, foreign, h) (λ moved. h, inr h)
  ]
]

install_one-Holds :
    {E : Type 0} (disk : HookDisk E) (rendered : Text) (slot : Slot) (file : HookFile)
    → Holds disk slot file
    → Holds disk (install_one disk rendered slot).1 file
unfolding install_one
install_one-Holds disk rendered slot file held =
    let (safe, kept) = move_aside-Holds disk slot file held in
    write_hook-Holds disk rendered (move_aside disk slot) file safe kept

Preserves-self : {E : Type 0} (disk : HookDisk E) (slots : List Slot) → Preserves disk slots slots
Preserves-self disk [] = nil
Preserves-self disk (slot ∷ slots) =
    cons slot slot slots slots (λ file held. held) (Preserves-self disk slots)

and_then-Preserves :
    {E : Type 0} (disk : HookDisk E) (slot : Slot) (slots : List Slot)
    (first : Result E (Unit {0}) × Slot) (later : Result E (Unit {0}) × List Slot)
    → ((file : HookFile) → Holds disk slot file → Holds disk first.1 file)
    → Preserves disk slots later.1
    → Preserves disk (slot ∷ slots) (and_then first slots later).1
unfolding and_then
and_then-Preserves disk slot slots (err e, left) later keeps rest =
    cons slot left slots slots keeps (Preserves-self disk slots)
and_then-Preserves disk slot slots (ok done, left) (answer, lefts) keeps rest =
    cons slot left slots lefts keeps rest

install_each-Preserves :
    {E : Type 0} (disk : HookDisk E) (hooks : List (Text × Slot))
    → Preserves disk (slots_of hooks) (install_each disk hooks).1
unfolding install_each
install_each-Preserves disk [] = nil
install_each-Preserves disk ((rendered, slot) ∷ hooks) =
    and_then-Preserves disk slot (slots_of hooks) (install_one disk rendered slot)
      (install_each disk hooks) (install_one-Holds disk rendered slot)
      (install_each-Preserves disk hooks)

-- Installing the hooks loses no one's hook, whichever call of the file system fails: for each hook,
-- a file of someone else that stood under its name stands there or as its backup afterwards, and a
-- backup stays.
pub install_hooks-Preserves :
    {E : Type 0} (disk : HookDisk E) (found : Result E Bool) (not_found : E)
    (hooks : List (Text × Slot))
    → Preserves disk (slots_of hooks) (install_hooks disk found not_found hooks).1
unfolding install_hooks
install_hooks-Preserves disk (err e) not_found hooks = Preserves-self disk (slots_of hooks)
install_hooks-Preserves disk (ok false) not_found hooks = Preserves-self disk (slots_of hooks)
install_hooks-Preserves disk (ok true) not_found hooks = install_each-Preserves disk hooks
