-- ===== src/Schedule/Range.antt =====
-- `is_time_in_range` and the days of a schedule, against the clock and the week.
use power_blockade.Base.{
  ℕ, ◌+◌, ◌*◌, ◌-◌, ◌%◌, ◌<◌, ◌≡◌, refl, ◌≢◌, Bool, true, false, not, ◌||◌, some, List, [], ◌∷◌,
  ◌++◌, map, ltb, arith, ◌==◌, nat_eq, list_eq, if◌then◌else◌, ◌∙◌, ap,
}
use power_blockade.Base.Texts.{Text, codes, join, lower, lower_char}
use power_blockade.Base.Int.{pos}
use power_blockade.Schedule.{is_time_in_range, day_allowed, day_name, occurs_in}

-- A time of day, as the hours and minutes that a schedule or a clock shows.
abbrev pub IsClock : ℕ → ℕ → Type 0
IsClock hour minute = (hour < 24) × (minute < 60)

-- The minutes from one time of day round to another, 1440 to the day.
abbrev pub minutes_until : ℕ → ℕ → ℕ → ℕ → ℕ
minutes_until hour minute hour' minute' =
    (hour' * 60 + minute' + 1440 - (hour * 60 + minute)) % 1440

-- For times of day, the present is in range exactly when fewer minutes have passed since the start
-- than the clock takes from the start round to the end; overnight ranges and equal ends included.
pub in_range-clock :
    (h m sh sm eh em : ℕ)
    → IsClock h m
    → IsClock sh sm
    → IsClock eh em
    → is_time_in_range (pos h) (pos m) (pos sh) (pos sm) (pos eh) (pos em)
      ≡ ltb (minutes_until sh sm h m) (minutes_until sh sm eh em)
unfolding is_time_in_range
in_range-clock h m sh sm eh em now start end = ground arith

-- Two schedules that hand over to one another, with different ends, share the day: at every time
-- of day exactly one of them is in range.
pub in_range-partition :
    (h m sh sm eh em : ℕ)
    → IsClock h m
    → IsClock sh sm
    → IsClock eh em
    → sh * 60 + sm ≢ eh * 60 + em
    → is_time_in_range (pos h) (pos m) (pos sh) (pos sm) (pos eh) (pos em)
      ≡ not (is_time_in_range (pos h) (pos m) (pos eh) (pos em) (pos sh) (pos sm))
unfolding is_time_in_range
in_range-partition h m sh sm eh em now start end differ = ground arith

pub data Day : Type 0 where
  mon tue wed thu fri sat sun : Day

abbrev pub weekday : Day → ℕ
weekday mon = 0
weekday tue = 1
weekday wed = 2
weekday thu = 3
weekday fri = 4
weekday sat = 5
weekday sun = 6

-- What the form of a schedule sends for a day.
abbrev pub form_value : Day → Text
form_value mon = codes "mon"
form_value tue = codes "tue"
form_value wed = codes "wed"
form_value thu = codes "thu"
form_value fri = codes "fri"
form_value sat = codes "sat"
form_value sun = codes "sun"

abbrev pub day_beq : Day → Day → Bool
day_beq a b = weekday a == weekday b

abbrev pub chosen : List Day → Day → Bool
chosen [] d = false
chosen (e ∷ ds) d = day_beq e d || chosen ds d

abbrev pub ds_empty : List Day → Bool
ds_empty [] = true
ds_empty (_ ∷ _) = false

abbrev pub comma : Text
comma = codes ","

occurs-last : (d e : Day) → occurs_in (form_value d) (lower (form_value e)) ≡ day_beq e d
unfolding occurs_in lower lower_char
occurs-last mon mon = refl
occurs-last mon _ = refl
occurs-last tue mon = refl
occurs-last tue _ = refl
occurs-last wed mon = refl
occurs-last wed _ = refl
occurs-last thu mon = refl
occurs-last thu _ = refl
occurs-last fri mon = refl
occurs-last fri _ = refl
occurs-last sat mon = refl
occurs-last sat _ = refl
occurs-last sun mon = refl
occurs-last sun _ = refl

occurs-head :
    (d e : Day) (rest : Text)
    → occurs_in (form_value d) (lower (form_value e ++ 44 ∷ rest))
      ≡ (day_beq e d || occurs_in (form_value d) (lower rest))
unfolding occurs_in lower lower_char
occurs-head mon mon rest = refl
occurs-head mon _ rest = refl
occurs-head tue mon rest = refl
occurs-head tue _ rest = refl
occurs-head wed mon rest = refl
occurs-head wed _ rest = refl
occurs-head thu mon rest = refl
occurs-head thu _ rest = refl
occurs-head fri mon rest = refl
occurs-head fri _ rest = refl
occurs-head sat mon rest = refl
occurs-head sat _ rest = refl
occurs-head sun mon rest = refl
occurs-head sun _ rest = refl

occurs-empty : (d : Day) → occurs_in (form_value d) (lower []) ≡ false
unfolding occurs_in lower
occurs-empty mon = refl
occurs-empty _ = refl

occurs-join :
    (d : Day) (ds : List Day)
    → occurs_in (form_value d) (lower (join comma (map form_value ds))) ≡ chosen ds d
unfolding join
occurs-join d [] = occurs-empty d
occurs-join d (e ∷ []) = ground (arith, occurs-last d e)
occurs-join d (e ∷ f ∷ ds) =
    occurs-head d e (join comma (form_value f ∷ map form_value ds))
    ∙ ap (λ b. day_beq e d || b) (occurs-join d (f ∷ ds))

day_name-weekday : (d : Day) → day_name (weekday d) ≡ form_value d
unfolding day_name
day_name-weekday mon = refl
day_name-weekday _ = refl

form_value-nonempty : (d : Day) → (form_value d == []) ≡ false
form_value-nonempty mon = refl
form_value-nonempty _ = refl

lower-join_empty : (ds : List Day) → (lower (join comma (map form_value ds)) == []) ≡ ds_empty ds
unfolding lower lower_char join
lower-join_empty [] = refl
lower-join_empty (mon ∷ []) = refl
lower-join_empty (_ ∷ []) = refl
lower-join_empty (mon ∷ e ∷ ds) = refl
lower-join_empty (_ ∷ e ∷ ds) = refl

-- For the text of days that the form stores, a day passes exactly when it was chosen, or when none
-- was: no name of a day is found across the commas of others.
pub day_allowed-form :
    (d : Day) (ds : List Day)
    → day_allowed (some (join comma (map form_value ds))) (weekday d)
      ≡ (if chosen ds d then true else ds_empty ds)
unfolding day_allowed
day_allowed-form d ds =
    rw (lower-join_empty ds, day_name-weekday d, form_value-nonempty d, occurs-join d ds)
      (ground arith)
