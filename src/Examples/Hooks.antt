-- ===== src/Examples/Hooks.antt =====
-- The theorem on the git hooks, at a repository with a hook of its own.
use contextd.Prelude.{none, some, true, [], ◌∷◌, List}
use contextd.Prelude.Result.{ok}
use contextd.Text.{Text}
use contextd.Sources.Hooks.{HookFile, Slot, HookDisk, slots_of, install_hooks}
use contextd.Sources.Hooks.Kept.{Preserves, install_hooks-Preserves}

-- A file system that takes every call; a file's text is its bytes.
abbrev disk : HookDisk Text
disk = record {
  read_to_string = λ file. some file.bytes;
  rename = λ file. ok tt;
  write = λ text old. (ok tt, some (record { bytes = text; mode = 420 }));
  metadata = λ left. ok 420;
  set_permissions = λ mode left. (ok tt, left);
}

-- "ls", of mode 0o755
abbrev listing : HookFile
listing = record { bytes = 108 ∷ 115 ∷ []; mode = 493 }

abbrev hooks : List (Text × Slot)
hooks =
    (97 ∷ [], record { hook = some listing; backup = none })
    ∷ (98 ∷ [], record { hook = none; backup = some listing })
    ∷ []

install_hooks-Preserves_example :
    Preserves disk (slots_of hooks) (install_hooks disk (ok true) (99 ∷ []) hooks).1
install_hooks-Preserves_example = install_hooks-Preserves disk (ok true) (99 ∷ []) hooks
