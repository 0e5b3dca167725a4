-- ===== src/Config/Store/Edits.antt =====
-- internal/config/config.go: what an Update leaves.
use bticino_go_companion.Common.{
  ◌≡◌, refl, sym, ap, ◌∙◌, inl, inr, Bool-cases, Text, Bool, true, false, ◌||◌, List, [], ◌∷◌,
  is_empty, arith, Result, ok, err,
}
use bticino_go_companion.Config.Entrypoints.{Entrypoint}
use bticino_go_companion.Config.Doorbell.{
  DoorbellError, assign_at, assign_default_doorbell, validate_exclusive_capabilities,
}
use bticino_go_companion.Config.Settings.{Config, encode}
use bticino_go_companion.Config.Validation.{ConfigError, validate, validate_entrypoints}
use bticino_go_companion.Config.Store.{
  SaveOutcome, written, unwritten, unsynced, Store, UpdateError, check_doorbell, check_valid,
  write_checked, check_edit, entrypoints_eq, update, with_entrypoints, write,
}

validate_entrypoints-assign_at :
    (seen : List Text) (es : List Entrypoint)
    → validate_entrypoints seen (assign_at es) ≡ validate_entrypoints seen es
unfolding validate_entrypoints assign_at
validate_entrypoints-assign_at seen [] = refl
validate_entrypoints-assign_at seen (e ∷ es) =
    let rest = validate_entrypoints-assign_at (e.id ∷ seen) es in ground arith

assign_at-is_empty : (es : List Entrypoint) → is_empty (assign_at es) ≡ is_empty es
unfolding assign_at
assign_at-is_empty [] = refl
assign_at-is_empty (e ∷ es) = ground arith

-- The doorbell that is assigned leaves a configuration as valid as it was.
assigned_entrypoints :
    (es : List Entrypoint)
    → (validate_entrypoints [] (assign_default_doorbell es) ≡ validate_entrypoints [] es)
      × (is_empty (assign_default_doorbell es) ≡ is_empty es)
unfolding assign_default_doorbell
assigned_entrypoints es =
    let rest = validate_entrypoints-assign_at [] es in
    let size = assign_at-is_empty es in (ground arith, ground arith)

validate-assign :
    (cfg : Config)
    → validate (with_entrypoints (assign_default_doorbell cfg.companion.entrypoints) cfg)
      ≡ validate cfg
unfolding validate
validate-assign cfg =
    let same = assigned_entrypoints cfg.companion.entrypoints in rw (same.0, same.1) refl

abbrev pub passes : {E : Type 0} → Result E (Unit {0}) → Bool
passes (ok u) = true
passes (err e) = false

-- What a store is after an update that went well.
abbrev pub IsUpdated : Store → Store → Type 0
IsUpdated s t =
    (validate t.cfg ≡ ok tt)
    × (t.file ≡ encode t.cfg)
    × ((entrypoints_eq s.cfg.companion.entrypoints t.cfg.companion.entrypoints
          || passes (validate_exclusive_capabilities t.cfg.companion.entrypoints))
        ≡ true)

module _ {E : Type 0} where
  write_lem :
      (saved : SaveOutcome) (next : Config) (s : Store)
      → (write {E = E} saved next s).1 ≡ ok tt
      → (write {E = E} saved next s).0 ≡ record { cfg = next; file = encode next }
  unfolding write
  write_lem written next s h = refl
  write_lem unwritten next s h = absurd (ground arith)
  write_lem unsynced next s h = absurd (ground arith)

  write_failed :
      (saved : SaveOutcome) (next : Config) (s : Store) (e : UpdateError E)
      → (write {E = E} saved next s).1 ≡ err e
      → (write {E = E} saved next s).0.cfg ≡ s.cfg
  unfolding write
  write_failed written next s e h = absurd (ground arith)
  write_failed unwritten next s e h = refl
  write_failed unsynced next s e h = refl

  written-IsUpdated :
      (saved : SaveOutcome) (next : Config) (s : Store)
      → validate next ≡ ok tt
      → (entrypoints_eq s.cfg.companion.entrypoints next.companion.entrypoints
          || passes (validate_exclusive_capabilities next.companion.entrypoints))
        ≡ true
      → (write {E = E} saved next s).1 ≡ ok tt
      → IsUpdated s (write {E = E} saved next s).0
  written-IsUpdated saved next s v x h = rw (write_lem saved next s h) (v, refl, x)

  write_checked-IsUpdated :
      (r : Result DoorbellError (Unit {0})) (saved : SaveOutcome) (next : Config) (s : Store)
      → r ≡ validate_exclusive_capabilities next.companion.entrypoints
      → validate next ≡ ok tt
      → (write_checked {E = E} r saved next s).1 ≡ ok tt
      → IsUpdated s (write_checked {E = E} r saved next s).0
  unfolding write_checked
  write_checked-IsUpdated (err e) saved next s q v h = absurd (ground arith)
  write_checked-IsUpdated (ok u) saved next s q v h =
      written-IsUpdated saved next s v (rw (sym q) (ground arith)) h

  check_valid-IsUpdated :
      (r : Result ConfigError (Unit {0})) (saved : SaveOutcome) (next : Config) (s : Store)
      → r ≡ validate next
      → (check_valid {E = E} r saved next s).1 ≡ ok tt
      → IsUpdated s (check_valid {E = E} r saved next s).0
  unfolding check_valid check_doorbell
  check_valid-IsUpdated (err e) saved next s q h = absurd (ground arith)
  check_valid-IsUpdated (ok tt) saved next s q h =
      elim (Bool-cases (entrypoints_eq s.cfg.companion.entrypoints next.companion.entrypoints)) [
        | inl e ↦ rw e (written-IsUpdated saved next s (sym q) (ground arith) (ground arith))
        | inr e ↦ rw e (
            write_checked-IsUpdated
              (validate_exclusive_capabilities (assign_default_doorbell next.companion.entrypoints))
              saved (with_entrypoints (assign_default_doorbell next.companion.entrypoints) next) s
              refl (validate-assign next ∙ sym q) (ground arith))
      ]

  check_edit-IsUpdated :
      (saved : SaveOutcome) (r : Result E Config) (s : Store)
      → (check_edit saved r s).1 ≡ ok tt
      → IsUpdated s (check_edit saved r s).0
  unfolding check_edit
  check_edit-IsUpdated saved (err e) s h = absurd (ground arith)
  check_edit-IsUpdated saved (ok next) s h =
      check_valid-IsUpdated (validate next) saved next s refl h

  write_checked_failed :
      (r : Result DoorbellError (Unit {0})) (saved : SaveOutcome) (next : Config) (s : Store)
      (e : UpdateError E)
      → (write_checked {E = E} r saved next s).1 ≡ err e
      → (write_checked {E = E} r saved next s).0.cfg ≡ s.cfg
  unfolding write_checked
  write_checked_failed (err x) saved next s e h = refl
  write_checked_failed (ok u) saved next s e h = write_failed saved next s e h

  check_valid_failed :
      (r : Result ConfigError (Unit {0})) (saved : SaveOutcome) (next : Config) (s : Store)
      (e : UpdateError E)
      → (check_valid {E = E} r saved next s).1 ≡ err e
      → (check_valid {E = E} r saved next s).0.cfg ≡ s.cfg
  unfolding check_valid check_doorbell
  check_valid_failed (err x) saved next s e h = refl
  check_valid_failed (ok u) saved next s e h =
      let same = write_failed saved next s e in
      let changed =
        write_checked_failed
          (validate_exclusive_capabilities (assign_default_doorbell next.companion.entrypoints))
          saved (with_entrypoints (assign_default_doorbell next.companion.entrypoints) next) s e in
      ground arith

  check_edit_failed :
      (saved : SaveOutcome) (r : Result E Config) (s : Store) (e : UpdateError E)
      → (check_edit saved r s).1 ≡ err e
      → (check_edit saved r s).0.cfg ≡ s.cfg
  unfolding check_edit
  check_edit_failed saved (err x) s e h = refl
  check_edit_failed saved (ok next) s e h = check_valid_failed (validate next) saved next s e h

-- After an update that went well the configuration passes Validate, the file is its document, and the
-- rule of the doorbell holds if the entrypoints have changed.
pub update-IsUpdated :
    {E : Type 0} (edit : Config → Result E Config) (saved : SaveOutcome) (s : Store)
    → (update edit saved s).1 ≡ ok tt
    → IsUpdated s (update edit saved s).0
unfolding update
update-IsUpdated edit saved s h = check_edit-IsUpdated saved (edit s.cfg) s h

-- An update that fails, by its edit, by Validate, by the rule of the doorbell or by the write, leaves the
-- configuration as it was.
pub update_failed :
    {E : Type 0} (edit : Config → Result E Config) (saved : SaveOutcome) (s : Store)
    (e : UpdateError E)
    → (update edit saved s).1 ≡ err e
    → (update edit saved s).0.cfg ≡ s.cfg
unfolding update
update_failed edit saved s e h = check_edit_failed saved (edit s.cfg) s e h

-- What an update keeps of the configuration that its edit has made: all but the entrypoints.
abbrev pub Edited : {E : Type 0} → Result E Config → Config → Type 0
Edited r cfg = (next : Config) × (r ≡ ok next) × (cfg.auth ≡ next.auth) × (cfg.webui ≡ next.webui)

module _ {E : Type 0} where
  check_doorbell-Edited :
      (r : Result DoorbellError (Unit {0})) (saved : SaveOutcome) (next : Config) (s : Store)
      → (write_checked {E = E} r saved next s).1 ≡ ok tt
      → (write_checked {E = E} r saved next s).0.cfg ≡ next
  unfolding write_checked
  check_doorbell-Edited (err e) saved next s h = absurd (ground arith)
  check_doorbell-Edited (ok u) saved next s h = ap (λ (s : Store). s.cfg) (write_lem saved next s h)

  check_valid-Edited :
      (r : Result ConfigError (Unit {0})) (saved : SaveOutcome) (next : Config) (s : Store)
      → (check_valid {E = E} r saved next s).1 ≡ ok tt
      → ((check_valid {E = E} r saved next s).0.cfg.auth ≡ next.auth)
        × ((check_valid {E = E} r saved next s).0.cfg.webui ≡ next.webui)
  unfolding check_valid check_doorbell
  check_valid-Edited (err e) saved next s h = absurd (ground arith)
  check_valid-Edited (ok u) saved next s h =
      let assigned = with_entrypoints (assign_default_doorbell next.companion.entrypoints) next in
      let same = write_lem {E = E} saved next s in
      let changed =
        check_doorbell-Edited
          (validate_exclusive_capabilities (assign_default_doorbell next.companion.entrypoints))
          saved assigned s in
      (ground arith, ground arith)

  check_edit-Edited :
      (saved : SaveOutcome) (r : Result E Config) (s : Store)
      → (check_edit saved r s).1 ≡ ok tt
      → Edited r (check_edit saved r s).0.cfg
  unfolding check_edit
  check_edit-Edited saved (err e) s h = absurd (ground arith)
  check_edit-Edited saved (ok next) s h =
      let kept = check_valid-Edited (validate next) saved next s h in (next, refl, kept.0, kept.1)

pub update-Edited :
    {E : Type 0} (edit : Config → Result E Config) (saved : SaveOutcome) (s : Store)
    → (update edit saved s).1 ≡ ok tt
    → Edited (edit s.cfg) (update edit saved s).0.cfg
unfolding update
update-Edited edit saved s h = check_edit-Edited saved (edit s.cfg) s h
