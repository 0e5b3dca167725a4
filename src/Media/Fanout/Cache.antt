-- ===== src/Media/Fanout/Cache.antt =====
-- internal/media/fanout.go: the keyframe cache against the history of the video.
use mathlib.Core.List.{append_assoc}
use bticino_go_companion.Common.{
  ℕ, ◌+◌, ◌≤◌, ◌≡◌, refl, sym, ap, ◌∙◌, Bool, true, false, List, [], ◌∷◌, ◌++◌, arith, is_empty,
  length, ltb, not, ◌==◌, ◌&&◌, ◌||◌, Bool-cases, inl, inr,
}
use bticino_go_companion.Media.Packets.{Packet}
use bticino_go_companion.Media.Keyframes.{starts_keyframe}
use bticino_go_companion.Media.Fanout.{
  Fanout, head_has_timestamp, keyframe_cache_limit, keep, remember, restart,
}

abbrev pub starts_well : List Packet → Bool
starts_well [] = true
starts_well (p ∷ ps) = starts_keyframe p.payload

abbrev pub payload_bytes : List Packet → ℕ
payload_bytes [] = 0
payload_bytes (p ∷ ps) = length p.payload + payload_bytes ps

-- The cache after the video of a history.
pub record CacheFits (history : List Packet) (f : Fanout) : Type 0 where
  pub before : List Packet
  pub suffix : history ≡ before ++ f.cache
  pub starts : starts_well f.cache ≡ true
  pub bytes : f.cache_bytes ≡ payload_bytes f.cache
  pub bounded : f.cache_bytes ≤ keyframe_cache_limit

payload_bytes-append :
    (ps : List Packet) (p : Packet)
    → payload_bytes (ps ++ p ∷ []) ≡ payload_bytes ps + length p.payload
payload_bytes-append [] p = omega arith
payload_bytes-append (q ∷ ps) p = omega (arith, payload_bytes-append ps p)

starts_well-append :
    (ps : List Packet) (p : Packet)
    → starts_well ps ≡ true
    → (is_empty ps && not (starts_keyframe p.payload)) ≡ false
    → starts_well (ps ++ p ∷ []) ≡ true
starts_well-append [] p h k = ground arith
starts_well-append (q ∷ ps) p h k = h

pub append_nil : (ps : List Packet) → ps ++ [] ≡ ps
append_nil [] = refl
append_nil (p ∷ ps) = ap (◌∷◌ p) (append_nil ps)

emptied :
    (history : List Packet) (f : Fanout) → f.cache ≡ [] → f.cache_bytes ≡ 0 → CacheFits history f
emptied history f e b = record {
  before = history;
  suffix = rw e (sym (append_nil history));
  starts = rw e refl;
  bytes = rw (e, b) refl;
  bounded = omega (arith, b);
}

restart-CacheFits :
    (history : List Packet) (p : Packet) (f : Fanout)
    → CacheFits history f
    → CacheFits history (restart p f)
unfolding restart
restart-CacheFits history p f v =
    elim (Bool-cases (starts_keyframe p.payload && not (head_has_timestamp f.cache p.timestamp))) [
      | inl e ↦ rw e (emptied history (record f { cache = []; cache_bytes = 0 }) refl refl)
      | inr e ↦ rw e v
    ]

-- A packet that is kept, and one that no keyframe stands before.
kept :
    (history : List Packet) (p : Packet) (f : Fanout)
    → CacheFits history f
    → (is_empty f.cache && not (starts_keyframe p.payload)) ≡ false
    → f.cache_bytes + length p.payload ≤ keyframe_cache_limit
    → CacheFits
        (history ++ p ∷ [])
        (record f { cache = f.cache ++ p ∷ []; cache_bytes = f.cache_bytes + length p.payload })
kept history p f v h k = record {
  before = v.before;
  suffix =
      ap (λ (ps : List Packet). ps ++ p ∷ []) v.suffix ∙ append_assoc v.before f.cache (p ∷ []);
  starts = starts_well-append f.cache p v.starts h;
  bytes = omega (arith, v.bytes, payload_bytes-append f.cache p);
  bounded = k;
}

keep-CacheFits :
    (history : List Packet) (p : Packet) (f : Fanout)
    → CacheFits history f
    → CacheFits (history ++ p ∷ []) (keep p f)
unfolding keep
keep-CacheFits history p f v =
    elim (Bool-cases (is_empty f.cache && not (starts_keyframe p.payload))) [
      | inl e ↦ rw e (emptied (history ++ p ∷ []) f (ground arith) (unkept f v (ground arith)))
      | inr e ↦ elim (Bool-cases (ltb keyframe_cache_limit (f.cache_bytes + length p.payload))) [
        | inl l ↦ rw (e, l) (emptied _ (record f { cache = []; cache_bytes = 0 }) refl refl)
        | inr l ↦ rw (e, l) (kept history p f v e (ground arith))
      ]
    ]
  where
    unkept : (f : Fanout) → CacheFits history f → f.cache ≡ [] → f.cache_bytes ≡ 0
    unkept f v e = v.bytes ∙ ap payload_bytes e

pub remember-CacheFits :
    (history : List Packet) (p : Packet) (f : Fanout)
    → CacheFits history f
    → CacheFits (history ++ p ∷ []) (remember p f)
unfolding remember
remember-CacheFits history p f v =
    keep-CacheFits history p (restart p f) (restart-CacheFits history p f v)

-- The video packets of a history.
pub remember_all : List Packet → Fanout → Fanout
remember_all [] f = f
remember_all (p ∷ ps) f = remember_all ps (remember p f)

-- No packet restarts the cache of a keyframe.
abbrev pub continue_keyframe : Packet → List Packet → Bool
continue_keyframe p [] = true
continue_keyframe p (q ∷ qs) =
    (not (starts_keyframe q.payload) || p.timestamp == q.timestamp) && continue_keyframe p qs

remembered :
    (p q : Packet) (ps : List Packet) (f : Fanout)
    → f.cache ≡ p ∷ ps
    → (not (starts_keyframe q.payload) || p.timestamp == q.timestamp) ≡ true
    → f.cache_bytes + length q.payload ≤ keyframe_cache_limit
    → ((remember q f).cache ≡ p ∷ (ps ++ q ∷ []))
      × ((remember q f).cache_bytes ≡ f.cache_bytes + length q.payload)
unfolding remember restart keep
remembered p q ps f e h k = ground arith

grown :
    (p : Packet) (ps qs : List Packet) (f : Fanout)
    → f.cache ≡ p ∷ ps
    → continue_keyframe p qs ≡ true
    → f.cache_bytes + payload_bytes qs ≤ keyframe_cache_limit
    → (remember_all qs f).cache ≡ p ∷ (ps ++ qs)
unfolding remember_all
grown p ps [] f e h k = e ∙ ap (◌∷◌ p) (sym (append_nil ps))
grown p ps (q ∷ qs) f e h k =
    let (cache, bytes) = remembered p q ps f e (ground arith) (omega arith) in
    grown p (ps ++ q ∷ []) qs (remember q f) cache (ground arith) (omega (arith, bytes))
    ∙ ap (◌∷◌ p) (append_assoc ps (q ∷ []) qs)

restarted :
    (p : Packet) (f : Fanout)
    → starts_keyframe p.payload ≡ true
    → head_has_timestamp f.cache p.timestamp ≡ false
    → length p.payload ≤ keyframe_cache_limit
    → ((remember p f).cache ≡ p ∷ []) × ((remember p f).cache_bytes ≡ length p.payload)
unfolding remember restart keep
restarted p f h k l = ground arith

-- From a keyframe of a new timestamp on, the cache is all of the video, until the next keyframe of
-- another timestamp, as long as the payloads fit the limit, whatever the cache was before.
pub remember_all_keyframe :
    (p : Packet) (ps : List Packet) (f : Fanout)
    → starts_keyframe p.payload ≡ true
    → head_has_timestamp f.cache p.timestamp ≡ false
    → continue_keyframe p ps ≡ true
    → payload_bytes (p ∷ ps) ≤ keyframe_cache_limit
    → (remember_all (p ∷ ps) f).cache ≡ p ∷ ps
unfolding remember_all
remember_all_keyframe p ps f h k c l =
    let (cache, bytes) = restarted p f h k (omega arith) in
    grown p [] ps (remember p f) cache c (omega (arith, bytes))
