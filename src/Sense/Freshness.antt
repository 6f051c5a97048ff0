-- ===== src/Sense/Freshness.antt =====
-- agent/src/sense/freshness.ts: each source's status mapped to FRESH, STALE or UNAVAILABLE. An age is
-- not finite, or an integer of milliseconds. The reason of a status is not kept.
use mathlib.Core.Option.{get_or}
use deltadesk.Prelude.{
  ℕ, ◌≤◌, ◌*◌, ◌≡◌, refl, subst, ◌↔◌, Bool, true, false, not, Option, none, some, if◌then◌else◌,
  arith,
}
use deltadesk.Prelude.Int.{ℤ, pos, negsuc, ◌≤ℤ◌, ltb_ℤ, leb_ℤ, max_ℤ}

pub data SourceName : Type 0 where
  chain hl rh k corp_actions : SourceName

pub data Age : Type 0 where
  not_finite : Age
  ms : ℤ → Age

pub record SourceStatus : Type 0 where
  pub ok : Bool
  pub age_ms : Option Age

pub data Freshness : Type 0 where
  fresh stale unavailable : Freshness

pub data RegimeName : Type 0 where
  regular extended overnight weekend_dark holiday : RegimeName

pub record FreshnessWindow : Type 0 where
  pub fresh_ms : ℤ
  pub stale_ms : ℤ

pub record Thresholds : Type 0 where
  pub when_open : FreshnessWindow
  pub when_closed : FreshnessWindow

abbrev pub minute : ℕ
minute = 60000

abbrev pub hour : ℕ
hour = 60 * minute

abbrev pub window : ℕ → ℕ → FreshnessWindow
window f s = record { fresh_ms = pos f; stale_ms = pos s }

abbrev pub freshness_thresholds : SourceName → Thresholds
freshness_thresholds chain = record {
  when_open = window 15000 minute;
  when_closed = window 15000 minute;
}
freshness_thresholds hl = record {
  when_open = window 10000 minute;
  when_closed = window 30000 (5 * minute);
}
freshness_thresholds rh = record {
  when_open = window 15000 minute;
  when_closed = window (2 * minute) (15 * minute);
}
freshness_thresholds k = record {
  when_open = window (6 * hour) (96 * hour);
  when_closed = window (6 * hour) (96 * hour);
}
freshness_thresholds corp_actions = record {
  when_open = window (2 * hour) (6 * hour);
  when_closed = window (2 * hour) (6 * hour);
}

-- -5000: minus `MAX_NEGATIVE_AGE_MS`.
abbrev pub min_age_ms : ℤ
min_age_ms = negsuc 4999

unfoldable pub is_market_closed : RegimeName → Bool
is_market_closed weekend_dark = true
is_market_closed holiday = true
is_market_closed _ = false

-- The tests on an age, once it is known to be a finite one.
unfoldable pub classify_age : Bool → ℤ → FreshnessWindow → Freshness
classify_age ok age w =
    let a = max_ℤ (pos 0) age in
    if ltb_ℤ age min_age_ms
    then unavailable
    else if ltb_ℤ w.stale_ms a
    then unavailable
    else if not ok
    then stale
    else if leb_ℤ a w.fresh_ms
    then fresh
    else stale

unfoldable pub classify_known : Bool → Option Age → FreshnessWindow → Freshness
unfolding classify_age
classify_known ok none w = unavailable
classify_known ok (some not_finite) w = unavailable
classify_known ok (some (ms age)) w = classify_age ok age w

unfoldable pub classify_source : SourceStatus → FreshnessWindow → Freshness
unfolding classify_known
classify_source status w = classify_known status.ok status.age_ms w

abbrev pub missing : SourceStatus
missing = record { ok = false; age_ms = none }

abbrev pub side : Bool → Thresholds → FreshnessWindow
side closed t = if closed then t.when_closed else t.when_open

unfoldable pub create_freshness :
    (SourceName → Thresholds)
    → (SourceName → Option SourceStatus)
    → RegimeName
    → SourceName
    → Freshness
unfolding classify_source is_market_closed
create_freshness thresholds sources regime name =
    let t = thresholds name in
    classify_source (get_or (sources name) missing) (side (is_market_closed regime) t)

-- 0 for the freshest.
abbrev pub staleness : Freshness → ℕ
staleness fresh = 0
staleness stale = 1
staleness unavailable = 2

-- An age that makes a source FRESH.
abbrev pub IsFreshAge : ℤ → FreshnessWindow → Type 0
IsFreshAge age w =
    (min_age_ms ≤ℤ age) × (max_ℤ (pos 0) age ≤ℤ w.stale_ms) × (max_ℤ (pos 0) age ≤ℤ w.fresh_ms)

classify_age-fresh_iff :
    (ok : Bool) (age : ℤ) (w : FreshnessWindow)
    → (classify_age ok age w ≡ fresh) ↔ ((ok ≡ true) × IsFreshAge age w)
unfolding classify_age
classify_age-fresh_iff ok age w = (λ e. ground arith, λ e. ground arith)

ms_injective : {a b : ℤ} → some (ms a) ≡ some (ms b) → b ≡ a
ms_injective e = ground arith

classify_known-fresh_iff :
    (ok : Bool) (age : Option Age) (w : FreshnessWindow)
    → (classify_known ok age w ≡ fresh)
      ↔ ((a : ℤ) × (age ≡ some (ms a)) × (ok ≡ true) × IsFreshAge a w)
unfolding classify_known
classify_known-fresh_iff ok none w = (λ e. ground arith, λ e. ground arith)
classify_known-fresh_iff ok (some not_finite) w = (λ e. ground arith, λ e. ground arith)
classify_known-fresh_iff ok (some (ms a)) w = (
  λ e. let h = (classify_age-fresh_iff ok a w).0 e in (a, refl, h.0, h.1),
  λ (b, e, h_ok, h).
      (classify_age-fresh_iff ok a w).1 (h_ok, subst (λ x. IsFreshAge x w) (ms_injective e) h),
)

-- A source is FRESH just when its last read was good and its age is a finite number of milliseconds,
-- at least -5000 and at most both limits of the window.
pub classify_source-fresh_iff :
    (status : SourceStatus) (w : FreshnessWindow)
    → (classify_source status w ≡ fresh)
      ↔ ((a : ℤ) × (status.age_ms ≡ some (ms a)) × (status.ok ≡ true) × IsFreshAge a w)
unfolding classify_source
classify_source-fresh_iff status w = classify_known-fresh_iff status.ok status.age_ms w

-- A healthy datum that grows older is never fresher, and neither is one whose last read failed.
pub classify_age_monotone :
    (ok : Bool) (age later : ℤ) (w : FreshnessWindow)
    → min_age_ms ≤ℤ age
    → age ≤ℤ later
    → (staleness (classify_age ok age w) ≤ staleness (classify_age ok later w))
      × (staleness (classify_age true age w) ≤ staleness (classify_age ok age w))
unfolding classify_age
classify_age_monotone ok age later w h_min h_later = (ground arith, ground arith)

classify_age_wider :
    (ok : Bool) (age : ℤ) (w wider : FreshnessWindow)
    → w.fresh_ms ≤ℤ wider.fresh_ms
    → w.stale_ms ≤ℤ wider.stale_ms
    → staleness (classify_age ok age wider) ≤ staleness (classify_age ok age w)
unfolding classify_age
classify_age_wider ok age w wider h_fresh h_stale = ground arith

thresholds_wider :
    (name : SourceName)
    → ((freshness_thresholds name).when_open.fresh_ms
        ≤ℤ (freshness_thresholds name).when_closed.fresh_ms)
      × ((freshness_thresholds name).when_open.stale_ms
          ≤ℤ (freshness_thresholds name).when_closed.stale_ms)
thresholds_wider chain = (omega arith, omega arith)
thresholds_wider hl = (omega arith, omega arith)
thresholds_wider rh = (omega arith, omega arith)
thresholds_wider k = (omega arith, omega arith)
thresholds_wider corp_actions = (omega arith, omega arith)

classify_known_wider :
    (ok : Bool) (age : Option Age) (name : SourceName)
    → staleness (classify_known ok age (freshness_thresholds name).when_closed)
      ≤ staleness (classify_known ok age (freshness_thresholds name).when_open)
unfolding classify_known
classify_known_wider ok none name = ground arith
classify_known_wider ok (some not_finite) name = ground arith
classify_known_wider ok (some (ms a)) name =
    let t = freshness_thresholds name in
    classify_age_wider ok a t.when_open t.when_closed (thresholds_wider name).0
      (thresholds_wider name).1

-- With the desk's own thresholds, a closed market never makes a source look staler than an open one.
pub closed_market_is_wider :
    (sources : SourceName → Option SourceStatus) (trading dark : RegimeName) (name : SourceName)
    → is_market_closed trading ≡ false
    → is_market_closed dark ≡ true
    → staleness (create_freshness freshness_thresholds sources dark name)
      ≤ staleness (create_freshness freshness_thresholds sources trading name)
unfolding create_freshness classify_source
closed_market_is_wider sources trading dark name ho hc =
    let status = get_or (sources name) missing in
    rw (ho, hc) (classify_known_wider status.ok status.age_ms name)
