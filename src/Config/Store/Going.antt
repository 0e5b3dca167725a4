-- ===== src/Config/Store/Going.antt =====
-- internal/config/config.go: when an update goes well.
use bticino_go_companion.Common.{
  ◌≡◌, refl, arith, Bool, true, false, List, [], ◌∷◌, Result, ok, text_eq_refl,
}
use bticino_go_companion.Config.Entrypoints.{Entrypoint, ℤ, pos, negsuc}
use bticino_go_companion.Config.Settings.{Config}
use bticino_go_companion.Config.Validation.{validate}
use bticino_go_companion.Config.Store.{
  written, Store, bool_eq, check_edit, check_valid, encode, entrypoint_eq, entrypoints_eq, int_eq,
  update, write,
}

bool_eq_refl : (b : Bool) → bool_eq b b ≡ true
bool_eq_refl true = refl
bool_eq_refl false = refl

int_eq_refl : (n : ℤ) → int_eq n n ≡ true
int_eq_refl (pos n) = ground arith
int_eq_refl (negsuc n) = ground arith

entrypoint_eq_refl : (e : Entrypoint) → entrypoint_eq e e ≡ true
unfolding entrypoint_eq
entrypoint_eq_refl e =
    rw
      (
        text_eq_refl e.id,
        text_eq_refl e.label,
        text_eq_refl e.dev_addr,
        text_eq_refl e.unlock_mode,
        bool_eq_refl e.capabilities.stream,
        bool_eq_refl e.capabilities.unlock,
        bool_eq_refl e.capabilities.ring,
        int_eq_refl e.unlock_duration_ms,
      )
      refl

entrypoints_eq_refl : (es : List Entrypoint) → entrypoints_eq es es ≡ true
unfolding entrypoints_eq
entrypoints_eq_refl [] = refl
entrypoints_eq_refl (e ∷ es) = ground (arith, entrypoint_eq_refl e, entrypoints_eq_refl es)

-- An edit that leaves the entrypoints alone and passes Validate is stored, if the file can be written.
pub update_done :
    {E : Type 0} (edit : Config → Result E Config) (s : Store) (next : Config)
    → edit s.cfg ≡ ok next
    → validate next ≡ ok tt
    → next.companion.entrypoints ≡ s.cfg.companion.entrypoints
    → update edit written s ≡ (record { cfg = next; file = encode next }, ok tt)
unfolding update check_edit check_valid write
update_done edit s next made valid same =
    rw (made, valid, same, entrypoints_eq_refl s.cfg.companion.entrypoints) refl
