-- ===== src/Media/Distributor/Sessions.antt =====
-- internal/media/distributor.go: whose packets reach whom.
use mathlib.Core.List.{filter}
use mathlib.Core.Logic.{ite}
use bticino_go_companion.Common.{
  ℕ, ◌≡◌, ◌↔◌, refl, ◌∙◌, subst, Bool, dec_of, if_and, ite-dec_of, arith, inl, inr, Bool-cases,
  Text, text_eq_iff, text_eq_refl, true, false, ◌&&◌, some, List, [], ◌∷◌, ◌++◌, is_empty,
  if◌then◌else◌, ◌==◌, map,
}
use bticino_go_companion.Media.Packets.{Packet}
use bticino_go_companion.Media.Distributor.{
  Delivery, Distributor, MediaKind, Session, Source, audio, audio_opus, consumers_of, delivery_of,
  distribute, is_session, is_the_source, is_valid, kind_eq, put_session, register_session_consumer,
  register_source, registered, same_key, same_source, session_consumers, unknown, video,
  without_key, without_session,
}

kind_eq→≡ : (k l : MediaKind) → kind_eq k l ≡ true → k ≡ l
unfolding kind_eq
kind_eq→≡ unknown unknown h = refl
kind_eq→≡ unknown audio h = absurd (cc)
kind_eq→≡ unknown audio_opus h = absurd (cc)
kind_eq→≡ unknown video h = absurd (cc)
kind_eq→≡ audio unknown h = absurd (cc)
kind_eq→≡ audio audio h = refl
kind_eq→≡ audio audio_opus h = absurd (cc)
kind_eq→≡ audio video h = absurd (cc)
kind_eq→≡ audio_opus unknown h = absurd (cc)
kind_eq→≡ audio_opus audio h = absurd (cc)
kind_eq→≡ audio_opus audio_opus h = refl
kind_eq→≡ audio_opus video h = absurd (cc)
kind_eq→≡ video unknown h = absurd (cc)
kind_eq→≡ video audio h = absurd (cc)
kind_eq→≡ video audio_opus h = absurd (cc)
kind_eq→≡ video video h = refl

same_key_trans : (s t u : Source) → same_key s t ≡ true → same_key t u ≡ same_key s u
unfolding same_key
same_key_trans s t u h =
    ground (arith, text_eq_iff s.entrypoint_id t.entrypoint_id, kind_eq→≡ s.media_kind t.media_kind)

registered-without_key :
    (t s : Source) (ts : List Source)
    → same_key t s ≡ false
    → registered s (without_key t ts) ≡ registered s ts
unfolding registered without_key
registered-without_key t s [] h = refl
registered-without_key t s (x ∷ ts) h =
    ground (arith, registered-without_key t s ts, same_key_trans x t s)

kind_eq_refl : (k : MediaKind) → kind_eq k k ≡ true
unfolding kind_eq
kind_eq_refl unknown = refl
kind_eq_refl audio = refl
kind_eq_refl audio_opus = refl
kind_eq_refl video = refl

same_source_refl : (s : Source) → same_source s s ≡ true
unfolding same_source same_key
same_source_refl s =
    ground
      (arith, text_eq_refl s.entrypoint_id, text_eq_refl s.generation, kind_eq_refl s.media_kind)

pub same_source_iff : (s t : Source) → (same_source s t ≡ true) ↔ (s ≡ t)
unfolding same_source same_key
same_source_iff s t = (
  λ h.
      let entrypoint = (text_eq_iff s.entrypoint_id t.entrypoint_id).0 (ground arith) in
      let kind = kind_eq→≡ s.media_kind t.media_kind (ground arith) in
      let generation = (text_eq_iff s.generation t.generation).0 (ground arith) in
      let ssrc : s.ssrc ≡ t.ssrc = ground arith in rw (entrypoint, kind, generation, ssrc) refl,
  λ h. subst (λ (u : Source). same_source s u ≡ true) h (same_source_refl s),
)

pub same_key_iff :
    (s t : Source)
    → (same_key s t ≡ true) ↔ ((s.entrypoint_id ≡ t.entrypoint_id) × (s.media_kind ≡ t.media_kind))
unfolding same_key
same_key_iff s t = (
  λ h. (
    (text_eq_iff s.entrypoint_id t.entrypoint_id).0 (ground arith),
    kind_eq→≡ s.media_kind t.media_kind (ground arith),
  ),
  λ h. rw (h.0, h.1) (ground (arith, text_eq_refl t.entrypoint_id, kind_eq_refl t.media_kind)),
)

-- Whether two sources are the same in all their fields, and whether they agree in entrypoint and kind.
unfoldable pub source_dec : (s t : Source) → Dec (s ≡ t)
source_dec s t = dec_of (same_source s t) (same_source_iff s t)

unfoldable pub key_dec :
    (s t : Source) → Dec ((s.entrypoint_id ≡ t.entrypoint_id) × (s.media_kind ≡ t.media_kind))
key_dec s t = dec_of (same_key s t) (same_key_iff s t)

-- All consumers, and those of the sessions that were registered for the very source.
abbrev pub due : Source → Distributor → List ℕ
due s d =
    map (λ n. n.consumer) d.consumers
    ++ map (λ k. k.consumer) (filter (λ k. source_dec k.source s) d.sessions)

map-if :
    (b : Bool) (k : Session) (ks : List Session)
    → (if b then k.consumer ∷ map (λ k. k.consumer) ks else map (λ k. k.consumer) ks)
      ≡ map (λ k. k.consumer) (if b then k ∷ ks else ks)
map-if true k ks = refl
map-if false k ks = refl

session_consumers-filter :
    (s : Source) (ks : List Session)
    → session_consumers s ks ≡ map (λ k. k.consumer) (filter (λ k. source_dec k.source s) ks)
unfolding session_consumers source_dec
session_consumers-filter s [] = refl
session_consumers-filter s (k ∷ ks) =
    let mine = filter (λ (k : Session). source_dec k.source s) ks in
    rw
      (
        ite-dec_of (same_source k.source s) (same_source_iff k.source s) (k ∷ mine) mine,
        session_consumers-filter s ks,
      )
      (map-if (same_source k.source s) k mine)

distribute_registered :
    (t s : Source) (p : Packet) (d : Distributor)
    → is_valid t ≡ true
    → distribute s (some p) (register_source t d).0 ≡ (
        if same_key t s
        then (if same_source t s && p.ssrc == s.ssrc
            then (map (delivery_of s p) (consumers_of s d), true)
            else ([], false))
        else distribute s (some p) d)
unfolding distribute register_source registered consumers_of
distribute_registered t s p d h = elim (Bool-cases (same_key t s)) [
  | inl e ↦ rw (h, e) (ground arith)
  | inr e ↦ rw (h, e, registered-without_key t s d.sources e) refl
]

-- A valid source that is registered takes over what is registered for its entrypoint and kind: of the packets
-- that are distributed for a source of this entrypoint and kind, those are delivered whose source is the very
-- one, in all its fields, and which have its SSRC, to all consumers and to the sessions of the very source; the
-- others go to nobody. For a source of another entrypoint or kind, packets are distributed as before.
pub distribute-register_source :
    (t s : Source) (p : Packet) (d : Distributor)
    → is_valid t ≡ true
    → distribute s (some p) (register_source t d).0 ≡ (
        ite
          (key_dec t s)
          (ite
            (source_dec t s)
            (if p.ssrc == s.ssrc then (map (delivery_of s p) (due s d), true) else ([], false))
            ([], false))
          (distribute s (some p) d))
unfolding key_dec source_dec consumers_of
distribute-register_source t s p d h =
    let nobody : List Delivery × Bool = ([], false) in
    let reached : List Delivery × Bool = (map (delivery_of s p) (due s d), true) in
    let fitting : List Delivery × Bool = if p.ssrc == s.ssrc then reached else nobody in
    let its_own : List Delivery × Bool = if same_source t s then fitting else nobody in
    distribute_registered t s p d h
    ∙ rw
        (
          session_consumers-filter s d.sessions,
          ite-dec_of (same_source t s) (same_source_iff t s) fitting nobody,
          ite-dec_of (same_key t s) (same_key_iff t s) its_own (distribute s (some p) d),
          if_and (same_source t s) (p.ssrc == s.ssrc) reached nobody,
        )
        refl

same_source_trans : (s t u : Source) → same_source s t ≡ true → same_source t u ≡ same_source s u
unfolding same_source
same_source_trans s t u h =
    ground (arith, same_key_trans s t u, text_eq_iff s.generation t.generation)

without_session_others :
    (s t : Source) (i : Text) (ks : List Session)
    → same_source s t ≡ false
    → session_consumers t (without_session s i ks) ≡ session_consumers t ks
unfolding session_consumers without_session is_session
without_session_others s t i [] h = refl
without_session_others s t i (k ∷ ks) h =
    ground (arith, without_session_others s t i ks, same_source_trans k.source s t)

-- A session of a registered source is given every packet of the source, beside what all consumers and the
-- source's other sessions are given; it takes the place of a session of that name, and the packets of any other
-- source are delivered as before.
pub distribute-register_session_consumer :
    (s t : Source) (i : Text) (c : ℕ) (p : Packet) (d : Distributor)
    → is_empty i ≡ false
    → is_the_source s (registered s d.sources) ≡ true
    → same_source s t ≡ false
    → (distribute s (some p) (register_session_consumer s i (some c) d).0 ≡ (
        if p.ssrc == s.ssrc
        then (
          map (delivery_of s p) (
              map (λ n. n.consumer) d.consumers
              ++ c ∷ session_consumers s (without_session s i d.sessions)),
          true,
        )
        else ([], false)))
      × (distribute t (some p) (register_session_consumer s i (some c) d).0
          ≡ distribute t (some p) d)
unfolding distribute register_session_consumer put_session consumers_of session_consumers
distribute-register_session_consumer s t i c p d h k e =
    rw (h, k, same_source_refl s, e, without_session_others s t i d.sessions e)
      (ground (arith), refl)
