-- ===== src/Config/Doorbell.antt =====
-- internal/config/config.go: which entrypoints may be the doorbell.
use bticino_go_companion.Common.{
  ℕ, suc, ◌+◌, ◌≤◌, ◌≡◌, refl, Text, codes, text_eq, Bool, true, false, not, ◌&&◌, ◌||◌, Option,
  none, some, List, [], ◌∷◌, if◌then◌else◌, ltb, arith, Result, ok, err,
}
use bticino_go_companion.Strings.{trim_space}
use bticino_go_companion.Config.Entrypoints.{Entrypoint, capable, doorbell_entrypoint}

abbrev pub default_doorbell_dev_addr : Text
default_doorbell_dev_addr = codes "20"

unfoldable pub any_streams : List Entrypoint → Bool
any_streams [] = false
any_streams (e ∷ es) = e.capabilities.stream || any_streams es

-- The second loop of assignDefaultDoorbell.
unfoldable pub assign_at : List Entrypoint → List Entrypoint
assign_at [] = []
assign_at (e ∷ es) =
    let rest = assign_at es in
    if text_eq (trim_space e.dev_addr) default_doorbell_dev_addr
    then record e { capabilities = record (e.capabilities) { stream = true; ring = true } } ∷ es
    else e ∷ rest

-- assignDefaultDoorbell
unfoldable pub assign_default_doorbell : List Entrypoint → List Entrypoint
unfolding any_streams assign_at
assign_default_doorbell es = if any_streams es then es else assign_at es

pub data DoorbellError : Type 0 where
  split_doorbell : Text → DoorbellError
  exclusive_capability : DoorbellError

-- The loop of validateExclusiveCapabilities, with its variable `doorbells`.
unfoldable pub count_doorbells : List Entrypoint → ℕ → Result DoorbellError ℕ
count_doorbells [] n = ok n
count_doorbells (e ∷ es) n =
    let rest = count_doorbells es (if e.capabilities.ring then suc n else n) in
    if (e.capabilities.stream && not e.capabilities.ring)
      || (e.capabilities.ring && not e.capabilities.stream)
    then err (split_doorbell e.id)
    else rest

abbrev at_most_one : Result DoorbellError ℕ → Result DoorbellError (Unit {0})
at_most_one (err e) = err e
at_most_one (ok n) = if ltb 1 n then err exclusive_capability else ok tt

-- validateExclusiveCapabilities
unfoldable pub validate_exclusive_capabilities : List Entrypoint → Result DoorbellError (Unit {0})
unfolding count_doorbells
validate_exclusive_capabilities es = at_most_one (count_doorbells es 0)

-- Whether there is an entrypoint that streams and rings.
unfoldable pub is_doorbell : Option Entrypoint → Bool
is_doorbell none = false
is_doorbell (some e) = e.capabilities.stream && e.capabilities.ring

-- An entrypoint lies at the default address.
unfoldable pub has_default : List Entrypoint → Bool
has_default [] = false
has_default (e ∷ es) = text_eq (trim_space e.dev_addr) default_doorbell_dev_addr || has_default es

capable_counts :
    (es : List Entrypoint) (found : Option Entrypoint) (k n m : ℕ)
    → count_doorbells es n ≡ ok m
    → (capable (λ c. c.stream) es found k).1 + n ≡ k + m
unfolding count_doorbells capable
capable_counts [] found k n m h = ground arith
capable_counts (e ∷ es) found k n m h =
    let more = capable_counts es (some e) (suc k) (suc n) m in
    let same = capable_counts es found k n m in ground arith

capable_finds :
    (es : List Entrypoint) (found : Option Entrypoint) (k n m : ℕ)
    → count_doorbells es n ≡ ok m
    → (is_doorbell found || any_streams es) ≡ true
    → is_doorbell (capable (λ c. c.stream) es found k).0 ≡ true
unfolding count_doorbells capable is_doorbell any_streams
capable_finds [] found k n m h s = ground arith
capable_finds (e ∷ es) found k n m h s =
    let more = capable_finds es (some e) (suc k) (suc n) m in
    let same = capable_finds es found k n m in ground arith

streams_count :
    (es : List Entrypoint) (found : Option Entrypoint) (k : ℕ)
    → (k ≤ (capable (λ c. c.stream) es found k).1)
      × (any_streams es ≡ true → k + 1 ≤ (capable (λ c. c.stream) es found k).1)
unfolding capable any_streams
streams_count [] found k = (omega arith, λ h. ground arith)
streams_count (e ∷ es) found k =
    let more = streams_count es (some e) (suc k) in
    let same = streams_count es found k in (ground arith, λ h. ground arith)

assigned_streams :
    (es : List Entrypoint) → has_default es ≡ true → any_streams (assign_at es) ≡ true
unfolding has_default any_streams assign_at
assigned_streams [] h = ground arith
assigned_streams (e ∷ es) h = let rest = assigned_streams es in ground arith

default_streams :
    (es : List Entrypoint)
    → (any_streams es || has_default es) ≡ true
    → any_streams (assign_default_doorbell es) ≡ true
unfolding assign_default_doorbell
default_streams es h = let rest = assigned_streams es in ground arith

exclusive_count :
    (es : List Entrypoint)
    → validate_exclusive_capabilities es ≡ ok tt
    → (m : ℕ) × (count_doorbells es 0 ≡ ok m) × (m ≤ 1)
unfolding validate_exclusive_capabilities
exclusive_count es h = go (count_doorbells es 0) refl h
  where
    go :
        (r : Result DoorbellError ℕ)
        → count_doorbells es 0 ≡ r
        → at_most_one r ≡ ok tt
        → (m : ℕ) × (count_doorbells es 0 ≡ ok m) × (m ≤ 1)
    go (ok m) e q = (m, e, ground arith)
    go (err x) e q = absurd (ground arith)

exclusive_doorbell :
    (es : List Entrypoint)
    → validate_exclusive_capabilities es ≡ ok tt
    → any_streams es ≡ true
    → is_doorbell (doorbell_entrypoint es) ≡ true
unfolding doorbell_entrypoint
exclusive_doorbell es h s =
    let (m, counted, few) = exclusive_count es h in
    let size = capable_counts es none 0 0 m counted in
    let more = (streams_count es none 0).1 s in
    let found = capable_finds es none 0 0 m counted (ground arith) in ground arith

-- Where the entrypoints of an edit pass the rule that they are saved by, and one of them streams or lies
-- at the default address, DoorbellEntrypoint finds an entrypoint that streams and rings.
pub doorbell_entrypoint-assign_default_doorbell :
    (es : List Entrypoint)
    → validate_exclusive_capabilities (assign_default_doorbell es) ≡ ok tt
    → (any_streams es || has_default es) ≡ true
    → is_doorbell (doorbell_entrypoint (assign_default_doorbell es)) ≡ true
doorbell_entrypoint-assign_default_doorbell es h s =
    exclusive_doorbell (assign_default_doorbell es) h (default_streams es s)
