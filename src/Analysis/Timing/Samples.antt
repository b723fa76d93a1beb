-- ===== src/Analysis/Timing/Samples.antt =====
-- The last ALLOWED sample, the first denial behind it, and the interval between the two.
use chainbreak.Common.{
  ℕ, ◌+◌, ◌*◌, ◌≤◌, ◌<◌, ◌≡◌, refl, sym, ◌∙◌, ap, inl, inr, Bool, true, false, ◌&&◌, List, [], ◌∷◌,
  none, some, arith, ltb, ◌==◌, mem, filter, Bool-cases, ==_iff,
}
use chainbreak.Common.Int.{sub_ℕ, leb_ℤ}
use chainbreak.Core.Enums.{OutcomeClass, is_allowed, is_denial}
use chainbreak.Core.Errors.{ok}
use chainbreak.Analysis.Timing.{
  PollSample, Interval, interval, sort_by_time, times, window_between, last_time, last_allow,
  first_deny,
}
use chainbreak.Analysis.Timing.Order.{
  sampled, sampled-sort, mem-times, latest-some, latest-none, earliest-some, earliest-none,
}

any_outcome : OutcomeClass → Bool
any_outcome o = true

mem-filter : (f : ℕ → Bool) (t : ℕ) (ts : List ℕ) → mem t (filter f ts) ≡ (f t && mem t ts)
mem-filter f t [] = ground arith
mem-filter f t (u ∷ ts) = elim (Bool-cases (t == u)) [
  | inl e ↦ let same : t ≡ u = (==_iff t u).0 e in ground (arith, ap f same, mem-filter f t ts)
  | inr ne ↦ ground (arith, mem-filter f t ts)
]

pub last_time-sampled :
    (ss : List PollSample) (t : ℕ) → last_time ss ≡ some t → sampled (λ _. true) t ss ≡ true
unfolding last_time
last_time-sampled [] t h = cc
last_time-sampled (s ∷ []) t h = ground arith
last_time-sampled (s ∷ u ∷ ss) t h = ground (arith, last_time-sampled (u ∷ ss) t h)

pub last_time-none : (ss : List PollSample) → last_time ss ≡ none → ss ≡ []
unfolding last_time
last_time-none [] h = refl
last_time-none (s ∷ []) h = cc
last_time-none (s ∷ u ∷ ss) h = let e = last_time-none (u ∷ ss) h in cc

sub_ℕ-mono : (s x y : ℕ) → x ≤ y → leb_ℤ (sub_ℕ x s) (sub_ℕ y s) ≡ true
sub_ℕ-mono s x y h = ground arith

interval-ok :
    (i : Interval) → leb_ℤ i.low i.point ≡ true → leb_ℤ i.point i.high ≡ true → interval i ≡ ok i
unfolding interval
interval-ok i h g = rw (h, g)

pub interval-window_between :
    (sent a b : ℕ) → a < b → interval (window_between sent a b) ≡ ok (window_between sent a b)
unfolding window_between
interval-window_between sent a b h =
    interval-ok (window_between sent a b) (sub_ℕ-mono (2 * sent) (2 * a) (a + b) (omega (arith, h)))
      (sub_ℕ-mono (2 * sent) (a + b) (2 * b) (omega (arith, h)))

-- The instant is that of an ALLOWED sample, and no ALLOWED sample is later.
abbrev pub LastAllow : List PollSample → ℕ → Type 0
LastAllow samples a =
    (sampled is_allowed a samples ≡ true) × ((t : ℕ) → sampled is_allowed t samples ≡ true → t ≤ a)

-- The instant is that of a denial after `a`, and no denial between the two is earlier.
abbrev pub FirstDeny : List PollSample → ℕ → ℕ → Type 0
FirstDeny samples a b =
    (sampled is_denial b samples ≡ true)
    × (a < b)
    × ((t : ℕ) → sampled is_denial t samples ≡ true → a < t → b ≤ t)

pub last_allow-some :
    (ss : List PollSample) (a : ℕ) → last_allow (sort_by_time ss) ≡ some a → LastAllow ss a
unfolding last_allow
last_allow-some ss a h =
    let kind : (t : ℕ) → mem t (times is_allowed (sort_by_time ss)) ≡ sampled is_allowed t ss =
      λ t. mem-times is_allowed t (sort_by_time ss) ∙ sampled-sort is_allowed t ss in
    let (found, top) = latest-some (times is_allowed (sort_by_time ss)) a h in
    (sym (kind a) ∙ found, λ t m. top t (kind t ∙ m))

pub last_allow-none :
    (ss : List PollSample)
    → last_allow (sort_by_time ss) ≡ none
    → (t : ℕ) → sampled is_allowed t ss ≡ false
unfolding last_allow
last_allow-none ss h t =
    sym (mem-times is_allowed t (sort_by_time ss) ∙ sampled-sort is_allowed t ss)
    ∙ latest-none (times is_allowed (sort_by_time ss)) h t

late : ℕ → List PollSample → List ℕ
late a ss = filter (λ t. ltb a t) (times is_denial (sort_by_time ss))

mem-late :
    (a t : ℕ) (ss : List PollSample) → mem t (late a ss) ≡ (ltb a t && sampled is_denial t ss)
unfolding late
mem-late a t ss =
    mem-filter (λ u. ltb a u) t (times is_denial (sort_by_time ss))
    ∙ ap (λ b. ltb a t && b) (mem-times is_denial t (sort_by_time ss) ∙ sampled-sort is_denial t ss)

pub first_deny-some :
    (ss : List PollSample) (a b : ℕ) → first_deny a (sort_by_time ss) ≡ some b → FirstDeny ss a b
unfolding first_deny late
first_deny-some ss a b h =
    let (found, bottom) = earliest-some (late a ss) b h in
    (
      ground (arith, mem-late a b ss),
      ground (arith, mem-late a b ss),
      λ t m l. bottom t (ground (arith, mem-late a t ss)),
    )

pub first_deny-none :
    (ss : List PollSample) (a : ℕ)
    → first_deny a (sort_by_time ss) ≡ none
    → (t : ℕ) → sampled is_denial t ss ≡ true
    → t ≤ a
unfolding first_deny late
first_deny-none ss a h t m = ground (arith, earliest-none (late a ss) h t, mem-late a t ss)
