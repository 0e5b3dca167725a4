-- ===== src/Config/Store.antt =====
-- internal/config/config.go: the store of the configuration. The file is the document it holds.
pub mod Edits
pub mod Files
pub mod Going
use bticino_go_companion.Common.{
  ℕ, Text, codes, text_eq, Bool, true, false, not, ◌&&◌, ◌||◌, Option, none, some, List, [], ◌∷◌,
  ◌++◌, is_empty, if◌then◌else◌, ◌==◌, leb, Result, ok, err,
}
use bticino_go_companion.Strings.{trim_space, to_lower}
use bticino_go_companion.Config.Entrypoints.{Capabilities, Entrypoint, ℤ, pos, negsuc}
use bticino_go_companion.Config.Doorbell.{
  DoorbellError, assign_default_doorbell, validate_exclusive_capabilities,
}
use bticino_go_companion.Config.Settings.{
  Companion, Config, PersistedConfig, Sip, apply_sip_defaults, decoded, encode,
}
use bticino_go_companion.Config.Validation.{ConfigError, validate}

-- The store, with the document in its file.
pub record Store : Type 0 where
  pub cfg : Config
  pub file : PersistedConfig

-- Why an update fails: the edit itself, Validate, the rule of the doorbell, or the write.
pub data UpdateError (E : Type 0) : Type 0 where
  refused : E → UpdateError E
  invalid : ConfigError → UpdateError E
  doorbell : DoorbellError → UpdateError E
  not_saved : UpdateError E

abbrev bool_eq : Bool → Bool → Bool
bool_eq true b = b
bool_eq false b = not b

abbrev int_eq : ℤ → ℤ → Bool
int_eq (pos n) (pos m) = n == m
int_eq (negsuc n) (negsuc m) = n == m
int_eq (pos n) (negsuc m) = false
int_eq (negsuc n) (pos m) = false

-- == on two entrypoints, and slices.Equal
unfoldable pub entrypoint_eq : Entrypoint → Entrypoint → Bool
entrypoint_eq a b =
    text_eq a.id b.id
    && text_eq a.label b.label
    && text_eq a.dev_addr b.dev_addr
    && bool_eq a.capabilities.stream b.capabilities.stream
    && bool_eq a.capabilities.unlock b.capabilities.unlock
    && bool_eq a.capabilities.ring b.capabilities.ring
    && text_eq a.unlock_mode b.unlock_mode
    && int_eq a.unlock_duration_ms b.unlock_duration_ms

unfoldable pub entrypoints_eq : List Entrypoint → List Entrypoint → Bool
unfolding entrypoint_eq
entrypoints_eq [] [] = true
entrypoints_eq [] (b ∷ bs) = false
entrypoints_eq (a ∷ es) [] = false
entrypoints_eq (a ∷ es) (b ∷ bs) = entrypoint_eq a b && entrypoints_eq es bs

abbrev pub with_entrypoints : List Entrypoint → Config → Config
with_entrypoints es cfg = record cfg { companion = record (cfg.companion) { entrypoints = es } }

-- How WritePrivate of internal/storage/file.go goes: it fails before the file is replaced, or behind the rename,
-- where it syncs the directory.
pub data SaveOutcome : Type 0 where
  written unwritten unsynced : SaveOutcome

-- The end of Update.
unfoldable pub write :
    {E : Type 0} → SaveOutcome → Config → Store → Store × Result (UpdateError E) (Unit {0})
write written next s = (record { cfg = next; file = encode next }, ok tt)
write unwritten next s = (s, err not_saved)
write unsynced next s = (record s { file = encode next }, err not_saved)

-- The rule of the doorbell, for an edit of the entrypoints, and what follows it.
write_checked :
    {E : Type 0}
    → Result DoorbellError (Unit {0})
    → SaveOutcome
    → Config
    → Store
    → Store × Result (UpdateError E) (Unit {0})
unfolding write
write_checked (err e) saved next s = (s, err (doorbell e))
write_checked (ok u) saved next s = write saved next s

unfoldable pub check_doorbell :
    {E : Type 0} → SaveOutcome → Config → Store → Store × Result (UpdateError E) (Unit {0})
unfolding write_checked
check_doorbell saved next s =
    let assigned = assign_default_doorbell next.companion.entrypoints in
    write_checked (validate_exclusive_capabilities assigned) saved (with_entrypoints assigned next)
      s

-- What follows Validate.
check_valid :
    {E : Type 0}
    → Result ConfigError (Unit {0})
    → SaveOutcome
    → Config
    → Store
    → Store × Result (UpdateError E) (Unit {0})
unfolding check_doorbell write
check_valid (err e) saved next s = (s, err (invalid e))
check_valid (ok u) saved next s =
    let same = write saved next s in
    let changed = check_doorbell saved next s in
    if entrypoints_eq s.cfg.companion.entrypoints next.companion.entrypoints then same else changed

unfoldable pub check_edit :
    {E : Type 0} → SaveOutcome → Result E Config → Store → Store × Result (UpdateError E) (Unit {0})
unfolding check_valid
check_edit saved (err e) s = (s, err (refused e))
check_edit saved (ok next) s = check_valid (validate next) saved next s

-- Update
unfoldable pub update :
    {E : Type 0}
    → (Config → Result E Config)
    → SaveOutcome
    → Store
    → Store × Result (UpdateError E) (Unit {0})
unfolding check_edit
update edit saved s = check_edit saved (edit s.cfg) s

-- The end of Load.
settled : Result ConfigError (Unit {0}) → Config → Result ConfigError Config
settled (err e) cfg = err e
settled (ok u) cfg = ok (record cfg {
  companion = record (cfg.companion) { sip = apply_sip_defaults cfg.companion.sip };
})

-- Load, of a file that holds one document.
unfoldable pub load : PersistedConfig → Result ConfigError Config
unfolding settled decoded
load p = settled (validate (decoded p)) (decoded p)

-- Open
unfoldable pub open_store : PersistedConfig → Result ConfigError Store
open_store p = elim (load p) [ err e ↦ err e | ok cfg ↦ ok (record { cfg = cfg; file = p }) ]

ensured :
    {E : Type 0} → Store × Result (UpdateError E) (Unit {0}) → Store × Result (UpdateError E) Bool
ensured (s, ok u) = (s, ok true)
ensured (s, err e) = (s, err e)

-- EnsureSIPSection, where `persisted` tells whether the file has the section; true where it is written.
unfoldable pub ensure_sip_section :
    Bool → SaveOutcome → Store → Store × Result (UpdateError (Unit {0})) Bool
unfolding write ensured
ensure_sip_section persisted saved s =
    let next = record (s.cfg) {
      companion = record (s.cfg.companion) {
        sip = record (s.cfg.companion.sip) { inbound = false };
      };
    } in
    if persisted then (s, ok false) else ensured (write saved next s)
