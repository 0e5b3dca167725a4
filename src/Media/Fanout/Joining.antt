-- ===== src/Media/Fanout/Joining.antt =====
-- internal/media/fanout.go: joins and leaves, and the video of one consumer.
use mathlib.Core.List.{append_assoc}
use bticino_go_companion.Common.{
  ℕ, ◌≡◌, refl, sym, ap, ◌∙◌, subst, true, false, List, [], ◌∷◌, ◌++◌, arith, is_empty, length,
}
use bticino_go_companion.Media.Packets.{Packet}
use bticino_go_companion.Media.Fanout.{
  Fanout, FanoutConsumer, add, close, join, keep, new_fanout, remember, remove, restart, video,
  without,
}
use bticino_go_companion.Media.Fanout.Cache.{CacheFits, remember-CacheFits, append_nil}
use bticino_go_companion.Media.Fanout.Runs.{
  Op, delivers_video, delivers_audio, joins, leaves, replays, closes, ends_by_bye, fails, run_op,
  run_all, videos,
}

videos-append : (ops more : List Op) → videos (ops ++ more) ≡ videos ops ++ videos more
videos-append [] more = refl
videos-append (delivers_video p ∷ ops) more = ap (◌∷◌ p) (videos-append ops more)
videos-append (_ ∷ ops) more = videos-append ops more

same_cache :
    (history : List Packet) (f g : Fanout)
    → CacheFits history f
    → g.cache ≡ f.cache
    → g.cache_bytes ≡ f.cache_bytes
    → CacheFits (history ++ []) g
same_cache history f g v c b = record {
  before = v.before;
  suffix = append_nil history ∙ v.suffix ∙ ap (λ (ps : List Packet). v.before ++ ps) (sym c);
  starts = rw c v.starts;
  bytes = rw (c, b) v.bytes;
  bounded = omega (arith, b, v.bounded);
}

run_op-CacheFits :
    (history : List Packet) (op : Op) (f : Fanout)
    → CacheFits history f
    → CacheFits (history ++ videos (op ∷ [])) (run_op op f).0
unfolding run_op video add join remove close
run_op-CacheFits history (delivers_video p) f v = remember-CacheFits history p f v
run_op-CacheFits history (joins c) f v =
    same_cache history f (add c (λ g. g) f).0 v (ground arith) (ground arith)
run_op-CacheFits history (leaves other) f v =
    same_cache history f (remove other f).0 v (ground arith) (ground arith)
run_op-CacheFits history (delivers_audio p) f v = same_cache history f f v refl refl
run_op-CacheFits history (replays id) f v = same_cache history f f v refl refl
run_op-CacheFits history closes f v = same_cache history f (close f) v refl refl
run_op-CacheFits history ends_by_bye f v = same_cache history f f v refl refl
run_op-CacheFits history (fails e) f v = same_cache history f f v refl refl

run_all_from :
    (history : List Packet) (ops : List Op) (f : Fanout)
    → CacheFits history f
    → CacheFits (history ++ videos ops) (run_all ops f).0
unfolding run_all
run_all_from history [] f v = same_cache history f f v refl refl
run_all_from history (op ∷ ops) f v =
    let rest =
      run_all_from (history ++ videos (op ∷ [])) ops (run_op op f).0
        (run_op-CacheFits history op f v) in
    subst (λ (h : List Packet). CacheFits h (run_all (op ∷ ops) f).0)
      (append_assoc history (videos (op ∷ [])) (videos ops)
        ∙ ap (◌++◌ history) (sym (videos-append (op ∷ []) ops)))
      rest

-- After any operations, the cache is the end of the video, from a keyframe on, and it holds at most
-- 512 KiB of payload, of which its counter keeps the size.
pub run_all-CacheFits : (ops : List Op) → CacheFits (videos ops) (run_all ops new_fanout).0
unfolding new_fanout
run_all-CacheFits ops =
    run_all_from [] ops new_fanout
      (record { before = []; suffix = refl; starts = refl; bytes = refl; bounded = omega arith })

closed_stays : (op : Op) (f : Fanout) → f.closed ≡ true → (run_op op f).0.closed ≡ true
unfolding run_op video add join remove close remember restart keep
closed_stays (delivers_video p) f h = ground arith
closed_stays (delivers_audio p) f h = h
closed_stays (joins c) f h = ground arith
closed_stays (leaves other) f h = ground arith
closed_stays (replays id) f h = h
closed_stays closes f h = refl
closed_stays ends_by_bye f h = h
closed_stays (fails e) f h = h

all_closed_stays : (ops : List Op) (f : Fanout) → f.closed ≡ true → (run_all ops f).0.closed ≡ true
unfolding run_all
all_closed_stays [] f h = h
all_closed_stays (op ∷ ops) f h = all_closed_stays ops (run_op op f).0 (closed_stays op f h)

none_left : (cs : List FanoutConsumer) → length cs ≡ 0 → is_empty cs ≡ true
none_left [] h = refl
none_left (c ∷ cs) h = absurd (omega arith)

last_closes :
    (id : ℕ) (f : Fanout)
    → (remove id f).1 ≡ 0
    → (remove id f).2 ≡ true
    → (remove id f).0.closed ≡ true
unfolding remove
last_closes id f h k = ground (arith, none_left (without id f.consumers))

-- Once the last consumer has been removed, every join fails and is sent nothing, whatever happens in
-- between and meanwhile.
pub remove_last :
    (id : ℕ) (f : Fanout) (ops : List Op) (c : FanoutConsumer) (between : Fanout → Fanout)
    → (remove id f).1 ≡ 0
    → (remove id f).2 ≡ true
    → add c between (run_all ops (remove id f).0).0 ≡ ((run_all ops (remove id f).0).0, false, [])
unfolding add
remove_last id f ops c between h k =
    rw (all_closed_stays ops (remove id f).0 (last_closes id f h k)) refl
