-- ===== src/Blocking/Switched.antt =====
-- Whether blocking is on after a sequence of requests, and what the zone file then holds.
use power_blockade.Base.{
  ℕ, ◌+◌, ◌*◌, ◌≡◌, refl, ◌∙◌, ap, Bool, true, false, not, ◌||◌, Option, none, some, List, [], ◌∷◌,
  if◌then◌else◌, leb, ltb, arith, ◌/◌, ◌++◌,
}
use power_blockade.Base.Texts.{Text, codes}
use power_blockade.Base.Decimal.{show}
use power_blockade.Base.Int.{ℤ, pos, ltb_ℤ, pos_part}
use power_blockade.Blocking.{
  BlockingState, paused_until, Blocking, get_blocking_state, write_emergency_rpz,
  is_blocking_active, active_in, blocking_disable, blocking_enable, blocking_pause, switch_to,
  second, minute, Request, disable, enable, pause, or_kept, handle, run,
}

-- A pause is accepted from 1 to 1440 minutes.
abbrev accepted : ℤ → Bool
accepted minutes = not (ltb_ℤ minutes (pos 1) || ltb_ℤ (pos 1440) minutes)

-- Whether blocking is on at an instant behind the requests, if `start` says so for none of them:
-- the last accepted one says so. A minute is 60,000,000 microseconds.
abbrev pub on_at : ℕ → List Request → Bool → Bool
on_at now [] start = start
on_at now (disable actor t ∷ rs) start = on_at now rs false
on_at now (enable actor t ∷ rs) start = on_at now rs true
on_at now (pause actor t minutes ∷ rs) start =
    on_at now rs
      (if accepted minutes then not (ltb now (t + pos_part minutes * 60_000_000)) else start)

-- A zone without a record of a domain, as it is written at an instant.
abbrev pub empty_zone : ℕ → Text
empty_zone t =
    codes "$TTL 300\n"
    ++ (codes "@ IN SOA localhost. hostmaster.localhost. "
        ++ (show (t / 1_000_000)
            ++ (codes " 3600 600 604800 300\n"
                ++ (codes "@ IN NS localhost.\n"
                    ++ codes "; BLOCKING DISABLED - emergency mode\n"))))

-- The blocking zone that they leave: that of the last switch that turned blocking off.
abbrev pub last_zone : List Request → Option Text → Option Text
last_zone [] text = text
last_zone (disable actor now ∷ rs) text = last_zone rs (some (empty_zone now))
last_zone (enable actor now ∷ rs) text = last_zone rs text
last_zone (pause actor now minutes ∷ rs) text =
    last_zone rs (if accepted minutes then some (empty_zone now) else text)

over-not_before : (t now : ℕ) → leb t now ≡ not (ltb now t)
over-not_before t now = ground arith

active-choice :
    (c : Bool) (t now : ℕ) (state : BlockingState)
    → active_in now (if c then paused_until t else state)
      ≡ (if c then not (ltb now t) else active_in now state)
active-choice true t now state = over-not_before t now
active-choice false t now state = refl

refused_or {ℓ} :
    {A : Type ℓ} (f : Blocking → A) (c : Bool) (after b : Blocking)
    → f (or_kept (if c then none else some after) b) ≡ (if not c then f after else f b)
refused_or f true after b = refl
refused_or f false after b = refl

same_either {ℓ} : {A : Type ℓ} (c : Bool) (a : A) → (if c then a else a) ≡ a
same_either true a = refl
same_either false a = refl

paused :
    (actor now : ℕ) (minutes : ℤ) (b : Blocking)
    → (get_blocking_state (or_kept (blocking_pause actor now minutes b) b) ≡ (
        if accepted minutes
        then paused_until (now + pos_part minutes * minute)
        else get_blocking_state b))
      × (((or_kept (blocking_pause actor now minutes b) b).files.combined
            ≡ (if accepted minutes then some (empty_zone now) else b.files.combined))
          × ((or_kept (blocking_pause actor now minutes b) b).files.whitelist ≡ b.files.whitelist))
unfolding blocking_pause write_emergency_rpz
paused actor now minutes b =
    let refuses = ltb_ℤ minutes (pos 1) || ltb_ℤ (pos 1440) minutes in
    let after =
      switch_to actor "blocking_pause" (paused_until (now + pos_part minutes * minute))
        (record b { files = write_emergency_rpz (second now) b.files }) in
    (
      refused_or get_blocking_state refuses after b,
      (
        refused_or (λ x. x.files.combined) refuses after b,
        refused_or (λ x. x.files.whitelist) refuses after b
            ∙ same_either (not refuses) b.files.whitelist,
      ),
    )

-- After any requests, blocking is on at an instant exactly when the last accepted request says so:
-- it was an enable, or a pause of 1 to 1440 minutes that is over; without one it is as it was. The
-- blocking zone is the empty one of the last accepted disable or pause, also behind an enable, and
-- the whitelist is as it was.
pub run-last :
    (rs : List Request) (b : Blocking) (now : ℕ)
    → (is_blocking_active now (run rs b) ≡ on_at now rs (is_blocking_active now b))
      × (((run rs b).files.combined ≡ last_zone rs b.files.combined)
          × ((run rs b).files.whitelist ≡ b.files.whitelist))
unfolding run handle is_blocking_active blocking_disable blocking_enable write_emergency_rpz
run-last [] b now = (refl, (refl, refl))
run-last (disable actor t ∷ rs) b now = run-last rs (blocking_disable actor t b) now
run-last (enable actor t ∷ rs) b now = run-last rs (blocking_enable actor b) now
run-last (pause actor t minutes ∷ rs) b now =
    let next = or_kept (blocking_pause actor t minutes b) b in
    let rest = run-last rs next now in
    let p = paused actor t minutes b in
    let end = t + pos_part minutes * minute in
    let active =
      ap (active_in now) p.0 ∙ active-choice (accepted minutes) end now (get_blocking_state b) in
    (rest.0 ∙ ap (on_at now rs) active, (rest.1.0 ∙ ap (last_zone rs) p.1.0, rest.1.1 ∙ p.1.1))
