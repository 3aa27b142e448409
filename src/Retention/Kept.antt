-- ===== src/Retention/Kept.antt =====
-- What the retention job keeps when its numbers come from the form.
use power_blockade.Base.{
  ℕ, ◌+◌, ◌-◌, ◌*◌, ◌/◌, ◌≡◌, refl, ◌∙◌, ap, Bool, true, false, not, Option, none, some, List, [],
  ◌∷◌, arith, ltb, leb, if◌then◌else◌, select, ◌>>=◌, Bool-cases, inl, inr,
}
use power_blockade.Base.Int.{ℤ, pos, negsuc, leb_ℤ, pos_part}
use power_blockade.Settings.{
  Rows, get_retention_events_days, get_retention_rollups_days, get_retention_node_metrics_days,
  settings_update_retention,
}
use power_blockade.Settings.Stored.{retention-read_back}
use power_blockade.Rollups.{DnsQueryEvent, QueryRollup}
use power_blockade.Retention.{
  NodeMetrics, Tables, day, cutoff, delete_before, cleanup_old_events, cleanup_old_rollups,
  cleanup_old_node_metrics, run_retention_job, after_events, after_rollups, after_metrics,
}

-- So many days before `now` are not before the year 1, 719,162 days before the epoch.
abbrev pub fits : ℕ → ℤ → Bool
fits now n = leb_ℤ n (pos (719_162 + now / 86_400_000_000))

-- The rows of so many last days, of 86,400,000,000 microseconds each.
abbrev pub recent_rows {ℓ} : {A : Type ℓ} → (A → ℕ) → ℕ → ℤ → List A → List A
recent_rows time now n = select (λ a. leb now (time a + pos_part n * 86_400_000_000))

-- What is left for three numbers of days, and whether the job comes to its end: a clean-up whose
-- number is too large ends it there.
abbrev pub left_metrics : ℕ → ℤ → Tables → Tables × Bool
left_metrics now m t =
    if fits now m
    then (record t { metrics = recent_rows (λ (x : NodeMetrics). x.ts) now m t.metrics }, true)
    else (t, false)

abbrev pub left_rollups : ℕ → ℤ → ℤ → Tables → Tables × Bool
left_rollups now r m t =
    if fits now r
    then left_metrics now m
        (record t { rollups = recent_rows (λ (x : QueryRollup). x.bucket_start) now r t.rollups })
    else (t, false)

abbrev pub left : ℕ → ℤ → ℤ → ℤ → Tables → Tables × Bool
left now e r m t =
    if fits now e
    then left_rollups now r m
        (record t { events = recent_rows (λ (x : DnsQueryEvent). x.ts) now e t.events })
    else (t, false)

not_before : (time now days : ℕ) → not (ltb time (now - days)) ≡ leb now (time + days)
not_before time now days = ground arith

select-agree {ℓ} :
    {A : Type ℓ} (p q : A → Bool) (xs : List A) → ((x : A) → p x ≡ q x) → select p xs ≡ select q xs
select-agree p q [] h = refl
select-agree p q (x ∷ xs) h = ground (arith, h x, select-agree p q xs h)

deleted-rest {ℓ} :
    {A : Type ℓ} (time : A → ℕ) (now days : ℕ) (rows : List A)
    → (delete_before time (now - days * day) rows).0 ≡ recent_rows time now (pos days) rows
deleted-rest time now days rows =
    select-agree (λ a. not (ltb (time a) (now - days * day))) (λ a. leb now (time a + days * day))
      rows (λ a. not_before (time a) now (days * day))

reach-fits : (now days : ℕ) → leb (days * day) (now + 719_162 * day) ≡ fits now (pos days)
reach-fits now days = ground arith

cutoff-fits :
    (now days : ℕ)
    → cutoff now (pos days) ≡ (if fits now (pos days) then some (now - days * day) else none)
cutoff-fits now days = ap (λ c. if c then some (now - days * day) else none) (reach-fits now days)

-- A clean-up of so many days: what follows it gets the recent rows, or its exception.
cleanup-left {ℓ κ} :
    {A : Type ℓ} {B : Type κ} (time : A → ℕ) (now : ℕ) (n : ℤ) (rows : List A)
    (after : Option (List A × ℕ) → B) (k : List A → B) (z : B)
    → leb_ℤ (pos 1) n ≡ true
    → ((xs : List A) (count : ℕ) → after (some (xs, count)) ≡ k xs)
    → after none ≡ z
    → after (cutoff now n >>= λ end. some (delete_before time end rows))
      ≡ (if fits now n then k (recent_rows time now n rows) else z)
cleanup-left time now (negsuc days) rows after k z h on off = absurd (ground arith)
cleanup-left time now (pos days) rows after k z h on off =
    ap (λ o. after (o >>= λ end. some (delete_before time end rows))) (cutoff-fits now days)
    ∙ elim (Bool-cases (fits now (pos days))) [
      | inl e ↦ rw e (on _ _ ∙ ap k (deleted-rest time now days rows))
      | inr e ↦ rw e off
    ]

metrics-left :
    (now : ℕ) (settings : Rows) (t : Tables) (m : ℤ)
    → leb_ℤ (pos 1) m ≡ true
    → get_retention_node_metrics_days settings ≡ some m
    → after_metrics t (cleanup_old_node_metrics now settings none t.metrics) ≡ left_metrics now m t
unfolding cleanup_old_node_metrics
metrics-left now settings t m positive h =
    let time : NodeMetrics → ℕ = λ x. x.ts in
    ap
      (λ o.
        after_metrics t
          (o >>= λ n. cutoff now n >>= λ end. some (delete_before time end t.metrics)))
      h
    ∙ cleanup-left time now m t.metrics (after_metrics t) (λ xs. (record t { metrics = xs }, true))
        (t, false) positive (λ xs count. refl) refl

rollups-left :
    (now : ℕ) (settings : Rows) (t : Tables) (r m : ℤ)
    → leb_ℤ (pos 1) r ≡ true
    → leb_ℤ (pos 1) m ≡ true
    → get_retention_rollups_days settings ≡ some r
    → get_retention_node_metrics_days settings ≡ some m
    → after_rollups now settings t (cleanup_old_rollups now settings none t.rollups)
      ≡ left_rollups now r m t
unfolding cleanup_old_rollups
rollups-left now settings t r m pr pm hr hm =
    let time : QueryRollup → ℕ = λ x. x.bucket_start in
    ap
      (λ o.
        after_rollups now settings t
          (o >>= λ n. cutoff now n >>= λ end. some (delete_before time end t.rollups)))
      hr
    ∙ cleanup-left time now r t.rollups (after_rollups now settings t)
        (λ xs. left_metrics now m (record t { rollups = xs })) (t, false) pr
        (λ xs count. metrics-left now settings (record t { rollups = xs }) m pm hm) refl

-- If the three numbers can be read and are positive.
job-left :
    (now : ℕ) (settings : Rows) (t : Tables) (e r m : ℤ)
    → leb_ℤ (pos 1) e ≡ true
    → leb_ℤ (pos 1) r ≡ true
    → leb_ℤ (pos 1) m ≡ true
    → get_retention_events_days settings ≡ some e
    → get_retention_rollups_days settings ≡ some r
    → get_retention_node_metrics_days settings ≡ some m
    → run_retention_job now settings t ≡ left now e r m t
unfolding run_retention_job cleanup_old_events
job-left now settings t e r m pe pr pm he hr hm =
    let time : DnsQueryEvent → ℕ = λ x. x.ts in
    ap
      (λ o.
        after_events now settings t
          (o >>= λ n. cutoff now n >>= λ end. some (delete_before time end t.events)))
      he
    ∙ cleanup-left time now e t.events (after_events now settings t)
        (λ xs. left_rollups now r m (record t { events = xs })) (t, false) pe
        (λ xs count. rollups-left now settings (record t { events = xs }) r m pr pm hr hm) refl

-- Once the form has been sent with three numbers of at least 1, the retention job comes to its end
-- and keeps exactly the events, rollups and metrics of so many last days, if no number reaches
-- before the year 1. Otherwise the first clean-up whose number does so ends the job by an exception:
-- its table and those behind it stay as they are, and those before it are cleaned.
pub form-job :
    (now : ℕ) (settings : Rows) (t : Tables) (e r m : ℤ)
    → leb_ℤ (pos 1) e ≡ true
    → leb_ℤ (pos 1) r ≡ true
    → leb_ℤ (pos 1) m ≡ true
    → run_retention_job now (settings_update_retention e r m settings) t ≡ left now e r m t
form-job now settings t e r m he hr hm =
    let read = retention-read_back e r m settings in
    job-left now (settings_update_retention e r m settings) t e r m he hr hm
      (read.0 ∙ ap (λ b. if b then some e else get_retention_events_days settings) he)
      (read.1.0 ∙ ap (λ b. if b then some r else get_retention_rollups_days settings) hr)
      (read.1.1 ∙ ap (λ b. if b then some m else get_retention_node_metrics_days settings) hm)
