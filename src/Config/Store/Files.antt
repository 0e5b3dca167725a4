-- ===== src/Config/Store/Files.antt =====
-- internal/config/config.go: what is written is what is read.
use bticino_go_companion.Common.{
  ◌≡◌, refl, sym, ap, ◌∙◌, inl, inr, Bool-cases, Text, codes, text_eq, text_eq_iff, Bool, ◌||◌, [],
  ◌∷◌, is_empty, if◌then◌else◌, arith, Result, ok, err,
}
use bticino_go_companion.Config.Settings.{
  Config, PersistedConfig, Sip, apply_sip_defaults, decoded, encode, or_default, persisted_channel,
  update_channel_stable, update_channel_beta,
}
use bticino_go_companion.Config.Validation.{ConfigError, validate}
use bticino_go_companion.Config.Store.{Store, load, settled}

abbrev pub set_channel : Text → Text
set_channel s = if is_empty s then update_channel_stable else s

-- What of a configuration is kept in a file: not the metadata, and with the defaults written out.
abbrev pub kept : Config → Config
kept cfg = record cfg {
  companion = record (cfg.companion) {
    device_id = [];
    model = [];
    sip = apply_sip_defaults cfg.companion.sip;
  };
  system = record (cfg.system) { update_channel = set_channel cfg.system.update_channel };
}

persisted_channel_back : (s : Text) → set_channel (persisted_channel s) ≡ set_channel s
unfolding persisted_channel
persisted_channel_back s = elim (Bool-cases (text_eq s update_channel_stable)) [
  | inl e ↦ rw e (rw ((text_eq_iff s update_channel_stable).0 e) refl)
  | inr e ↦ rw e refl
]

or_default_twice : (s d : Text) → or_default (or_default s d) d ≡ or_default s d
or_default_twice s d = ground arith

apply_sip_defaults_twice :
    (s : Sip) → apply_sip_defaults (apply_sip_defaults s) ≡ apply_sip_defaults s
unfolding apply_sip_defaults
apply_sip_defaults_twice s =
    rw
      (
        or_default_twice s.from (codes "companion@127.0.0.1:5070"),
        or_default_twice s.listen (codes "127.0.0.1:5070"),
        or_default_twice s.transport (codes "tcp"),
      )
      refl

set_channel_twice : (s : Text) → set_channel (set_channel s) ≡ set_channel s
set_channel_twice s = ground arith

kept_twice : (c : Config) → kept (kept c) ≡ kept c
kept_twice c =
    rw (apply_sip_defaults_twice c.companion.sip, set_channel_twice c.system.update_channel) refl

decoded-encode :
    (c : Config)
    → decoded (encode c) ≡ record c {
      companion = record (c.companion) { device_id = []; model = [] };
      system = record (c.system) { update_channel = set_channel c.system.update_channel };
    }
unfolding decoded encode
decoded-encode c = rw (persisted_channel_back c.system.update_channel) refl

known_channel : Text → Bool
known_channel s = is_empty s || text_eq s update_channel_stable || text_eq s update_channel_beta

known_set_channel : (s : Text) → known_channel (set_channel s) ≡ known_channel s
unfolding known_channel text_eq
known_set_channel [] = refl
known_set_channel (c ∷ s) = refl

validate_kept : (c : Config) → validate (decoded (encode c)) ≡ validate c
unfolding validate known_channel
validate_kept c = rw (decoded-encode c) (rw (known_set_channel c.system.update_channel) refl)

-- What is written of a configuration that passes Validate is read back: all of it but the metadata, with
-- the defaults of its SIP section and of its update channel written out.
pub load-encode : (c : Config) → validate c ≡ ok tt → load (encode c) ≡ ok (kept c)
unfolding load settled
load-encode c h =
    ap (λ (r : Result ConfigError (Unit {0})). settled r (decoded (encode c))) (validate_kept c ∙ h)
    ∙ ap (settled (ok tt)) (decoded-encode c)

settled_ok :
    (r : Result ConfigError (Unit {0})) (d c : Config)
    → settled r d ≡ ok c
    → (r ≡ ok tt)
      × (c ≡ record d {
        companion = record (d.companion) { sip = apply_sip_defaults d.companion.sip };
      })
unfolding settled
settled_ok (err e) d c h = absurd (ground arith)
settled_ok (ok tt) d c h = (refl, ground arith)

-- The configuration that Load makes of one that is valid.
abbrev settled_of : PersistedConfig → Config
settled_of p =
    let d = decoded p in
    record d { companion = record (d.companion) { sip = apply_sip_defaults d.companion.sip } }

kept_settled : (p : PersistedConfig) → kept (settled_of p) ≡ settled_of p
unfolding decoded
kept_settled p = rw (apply_sip_defaults_twice p.sip, set_channel_twice p.updates_channel) refl

validate_settled : (p : PersistedConfig) → validate (settled_of p) ≡ validate (decoded p)
unfolding validate decoded
validate_settled p = refl

-- What Load has read is what it reads again after it has been written.
pub load-encode-load : (p : PersistedConfig) (c : Config) → load p ≡ ok c → load (encode c) ≡ ok c
unfolding load
load-encode-load p c h =
    let (valid, is) = settled_ok (validate (decoded p)) (decoded p) c h in
    load-encode c (ap validate is ∙ validate_settled p ∙ valid)
    ∙ ap ok (ap kept is ∙ kept_settled p ∙ sym is)
