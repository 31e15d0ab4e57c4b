-- ===== src/Dvc/Search/Nights.antt =====
-- The inner loops of `Search`: which stays from one check-in are found.
use lineleader.Base.{
  ℕ, zero, suc, ◌+◌, ◌≤◌, ◌≡◌, refl, sym, ◌∙◌, inl, inr, Bool, true, false, Option, none, some,
  arith, Bool-cases, All, All-append, All-map, Exists, ltb, leb, ltb→ge, ge→ltb,
}
use lineleader.Base.{Exists-append_left, Exists-append_right}
use mathlib.Core.Path.{subst}
use mathlib.Core.Option.{some-injective}
use lineleader.Base.{◌⊎◌, ◌<◌}
use lineleader.Base.Int.{ℤ, pos, ge→ltb_ℤ, le→leb_ℤ, ◌+ℤ◌, ◌≤ℤ◌, leb_ℤ, ltb_ℤ, ltb_ℤ→ge, leb_ℤ→le}
use lineleader.Calendar.{Time}
use lineleader.Dvc.Types.{StayResult}
use lineleader.Dvc.Search.{
  max_nights, Night, cost, gap, panic, Found, join, prepend, Query, stay_of, extend_stay, check_ins,
}

-- The points of `n` nights from `check_in`, if all of them have a rate.
abbrev pub add_night : Option ℤ → Night → Option ℤ
add_night none night = none
add_night (some t) (cost p) = some (t +ℤ p)
add_night (some t) gap = none
add_night (some t) panic = none

abbrev pub stay_cost : (Time → Night) → Time → ℕ → Option ℤ
stay_cost night check_in zero = some (pos 0)
stay_cost night check_in (suc n) = add_night (stay_cost night check_in n) (night (check_in + n))

-- A stay that the search may report.
abbrev pub IsStay : Query → StayResult → Type 0
IsStay q r =
    (r.resort ≡ q.resort)
    × (r.room_type ≡ q.room_type)
    × (r.view ≡ q.view)
    × (r.check_out ≡ r.check_in + r.nights)
    × (r.check_out ≤ q.window_end)
    × (q.min_nights ≤ℤ pos r.nights)
    × (r.nights ≤ max_nights)
    × (stay_cost q.night r.check_in r.nights ≡ some r.points)
    × (r.points ≤ℤ q.budget)

abbrev pub AllFound : (StayResult → Type 0) → Found → Type 0
AllFound P none = Unit
AllFound P (some rs) = All P rs

pub AllFound-join :
    (P : StayResult → Type 0) (f g : Found) → AllFound P f → AllFound P g → AllFound P (join f g)
AllFound-join P none g a b = tt
AllFound-join P (some xs) none a b = tt
AllFound-join P (some xs) (some ys) a b = All-append P xs ys a b

AllFound-prepend :
    (P : StayResult → Type 0) (b : Bool) (r : StayResult) (f : Found)
    → (b ≡ true → P r)
    → AllFound P f
    → AllFound P (prepend b r f)
AllFound-prepend P b r none h a = tt
AllFound-prepend P true r (some rs) h a = (h refl, a)
AllFound-prepend P false r (some rs) h a = a

pub Night-cases : (x : Night) → (x ≡ gap) ⊎ (x ≡ panic) ⊎ ((p : ℤ) × (x ≡ cost p))
Night-cases (cost p) = inr (inr (p, refl))
Night-cases gap = inl refl
Night-cases panic = inr (inl refl)

module _ (q : Query) (check_in : Time) where
  stay_cost_step :
      (n : ℕ) (total p : ℤ)
      → stay_cost q.night check_in n ≡ some total
      → q.night (check_in + n) ≡ cost p
      → stay_cost q.night check_in (suc n) ≡ some (total +ℤ p)
  stay_cost_step n total p e g = rw (e, g) refl

  extend_stay-check_in :
      (rounds n : ℕ) (total : ℤ)
      → AllFound (λ (r : StayResult). check_in ≤ r.check_in) (extend_stay q check_in rounds n total)
  unfolding extend_stay
  extend_stay-check_in zero n total = tt
  extend_stay-check_in (suc rounds) n total =
      elim (Bool-cases (ltb q.window_end (check_in + suc n))) [
        | inl w ↦ rw w tt
        | inr w ↦ rw w (elim (Night-cases (q.night (check_in + n))) [
          | inl g ↦ rw g tt
          | inr (inl g) ↦ rw g tt
          | inr (inr (p, g)) ↦ rw g (elim (Bool-cases (ltb_ℤ q.budget (total +ℤ p))) [
            | inl b ↦ rw b tt
            | inr b ↦ rw b (
                AllFound-prepend (λ (r : StayResult). check_in ≤ r.check_in)
                  (leb_ℤ q.min_nights (pos (suc n))) (stay_of q check_in (suc n) (total +ℤ p)) _
                  (λ l. omega arith)
                  (elim (Bool-cases (leb max_nights (suc n))) [
                    | inl l ↦ rw l tt
                    | inr l ↦ rw l (extend_stay-check_in rounds (suc n) (total +ℤ p))
                  ]))
          ])
        ])
      ]

  extend_stay_sound :
      (rounds n : ℕ) (total : ℤ)
      → n + rounds ≤ max_nights
      → stay_cost q.night check_in n ≡ some total
      → AllFound (IsStay q) (extend_stay q check_in rounds n total)
  unfolding extend_stay
  extend_stay_sound zero n total m e = tt
  extend_stay_sound (suc rounds) n total m e =
      elim (Bool-cases (ltb q.window_end (check_in + suc n))) [
        | inl w ↦ rw w tt
        | inr w ↦ rw w (elim (Night-cases (q.night (check_in + n))) [
          | inl g ↦ rw g tt
          | inr (inl g) ↦ rw g tt
          | inr (inr (p, g)) ↦ rw g (elim (Bool-cases (ltb_ℤ q.budget (total +ℤ p))) [
            | inl b ↦ rw b tt
            | inr b ↦
                let e' = stay_cost_step n total p e g in
                rw b (
                  AllFound-prepend (IsStay q) (leb_ℤ q.min_nights (pos (suc n)))
                    (stay_of q check_in (suc n) (total +ℤ p)) _
                    (λ l. (
                      refl,
                      refl,
                      refl,
                      refl,
                      ltb→ge q.window_end (check_in + suc n) w,
                      leb_ℤ→le q.min_nights (pos (suc n)) l,
                      omega arith,
                      e',
                      ltb_ℤ→ge q.budget (total +ℤ p) b,
                    ))
                    (elim (Bool-cases (leb max_nights (suc n))) [
                      | inl l ↦ rw l tt
                      | inr l ↦
                          rw l (extend_stay_sound rounds (suc n) (total +ℤ p) (omega arith) e')
                    ]))
          ])
        ])
      ]

  -- The budget covers every shorter stay of at least one night, so the loop does not stop before.
  abbrev pub Affordable : ℕ → Type 0
  Affordable n =
      (m : ℕ) → m ≤ n → (t : ℤ) × (stay_cost q.night check_in m ≡ some t) × (t ≤ℤ q.budget)

  -- The stay of `n` nights from `check_in` is among the results.
  abbrev pub Reports : Found → ℕ → Type 0
  Reports none n = Unit
  Reports (some rs) n = Exists (λ r. (r.check_in ≡ check_in) × (r.nights ≡ n)) rs

  extend_stay_complete :
      (n rounds k : ℕ) (total : ℤ)
      → Affordable n
      → n ≤ max_nights
      → check_in + n ≤ q.window_end
      → q.min_nights ≤ℤ pos n
      → suc k ≤ n
      → n ≤ k + rounds
      → stay_cost q.night check_in k ≡ some total
      → Reports (extend_stay q check_in rounds k total) n
  unfolding extend_stay
  extend_stay_complete n zero k total a m w l lt f e = absurd (omega arith)
  extend_stay_complete n (suc rounds) k total a m w l lt f e =
      let (t, c, b) = a (suc k) lt in
      let open_window = ge→ltb q.window_end (check_in + suc k) (omega arith) in
      elim (Night-cases (q.night (check_in + k))) [
        | inl g ↦ absurd (no_cost t (rw (e, g) at c))
        | inr (inl g) ↦ rw (open_window, g) tt
        | inr (inr (p, g)) ↦
            let t_eq = some-injective _ _ (sym (stay_cost_step k total p e g) ∙ c) in
            let covered = ge→ltb_ℤ q.budget (total +ℤ p) (rw (← t_eq) at b) in
            rw (open_window, g, covered)
              (elim (Bool-cases (leb n (suc k))) [
                | inl last ↦
                    let eq : suc k ≡ n = leb_eq n k lt last in
                    let min = le→leb_ℤ q.min_nights (pos (suc k)) (rw (← eq) at l) in
                    rw min (reports_now _ (suc k) n (total +ℤ p) eq)
                | inr more ↦
                    let shorter = not_last n k more m in
                    rw shorter (
                      reports_later _ (suc k) n (total +ℤ p) _ (
                        extend_stay_complete n rounds (suc k) (total +ℤ p) a m w l
                          (leb_false n (suc k) more) (omega arith) (stay_cost_step k total p e g)))
              ])
      ]
    where
      no_cost : (t : ℤ) → none ≡ some t → ⊥
      no_cost t h = cc

      leb_eq : (n k : ℕ) → suc k ≤ n → leb n (suc k) ≡ true → suc k ≡ n
      leb_eq n k lt h = ground arith

      leb_false : (n k : ℕ) → leb n k ≡ false → suc k ≤ n
      leb_false n k h = ground arith

      not_last : (n k : ℕ) → leb n (suc k) ≡ false → n ≤ max_nights → leb max_nights (suc k) ≡ false
      not_last n k h m = ground arith

      reports_now :
          (f : Found) (k n : ℕ) (total : ℤ)
          → k ≡ n
          → Reports (prepend true (stay_of q check_in k total) f) n
      reports_now none k n total e = tt
      reports_now (some rs) k n total e = inl (refl, e)

      reports_later :
          (b : Bool) (k n : ℕ) (total : ℤ) (f : Found)
          → Reports f n
          → Reports (prepend b (stay_of q check_in k total) f) n
      reports_later b k n total none r = tt
      reports_later true k n total (some rs) r = inr r
      reports_later false k n total (some rs) r = r

module _ (q : Query) where
  -- Every reported stay of a column is a stay in the window, priced night by night, within the
  -- budget, and of an allowed length.
  AllFound-later :
      (c : Time) (f : Found)
      → AllFound (λ (r : StayResult). suc c ≤ r.check_in) f
      → AllFound (λ (r : StayResult). c ≤ r.check_in) f
  AllFound-later c none a = tt
  AllFound-later c (some rs) a =
      All-map (λ (r : StayResult). suc c ≤ r.check_in) (λ (r : StayResult). c ≤ r.check_in)
        (λ r h. omega (arith, h)) rs a

  -- The stays from the days on from `check_in` check in then or later.
  pub check_ins-check_in :
      (days : ℕ) (check_in : Time)
      → AllFound (λ (r : StayResult). check_in ≤ r.check_in) (check_ins q days check_in)
  unfolding check_ins
  check_ins-check_in zero check_in = tt
  check_ins-check_in (suc days) check_in =
      AllFound-join _ (extend_stay q check_in max_nights 0 (pos 0))
        (check_ins q days (suc check_in)) (extend_stay-check_in q check_in max_nights 0 (pos 0))
        (AllFound-later check_in (check_ins q days (suc check_in))
          (check_ins-check_in days (suc check_in)))

  pub check_ins_sound :
      (days : ℕ) (check_in : Time) → AllFound (IsStay q) (check_ins q days check_in)
  unfolding check_ins
  check_ins_sound zero check_in = tt
  check_ins_sound (suc days) check_in =
      AllFound-join (IsStay q) (extend_stay q check_in max_nights 0 (pos 0))
        (check_ins q days (suc check_in))
        (extend_stay_sound q check_in max_nights 0 (pos 0) (omega arith) refl)
        (check_ins_sound days (suc check_in))

  Reports-join_left : (d n : ℕ) (f g : Found) → Reports q d f n → Reports q d (join f g) n
  Reports-join_left d n none g r = tt
  Reports-join_left d n (some xs) none r = tt
  Reports-join_left d n (some xs) (some ys) r = Exists-append_left _ xs ys r

  Reports-join_right : (d n : ℕ) (f g : Found) → Reports q d g n → Reports q d (join f g) n
  Reports-join_right d n none g r = tt
  Reports-join_right d n (some xs) none r = tt
  Reports-join_right d n (some xs) (some ys) r = Exists-append_right _ xs ys r

  -- A stay is reported, or the search panics, if its check-in is one of the days searched, it has
  -- one night at least and `MaxNights` at most, not fewer than the minimum, it ends within the
  -- window, and it and every shorter stay from its check-in have a cost that the budget covers.
  pub check_ins_complete :
      (days : ℕ) (start check_in n : ℕ)
      → start ≤ check_in
      → check_in < start + days
      → 1 ≤ n
      → Affordable q check_in n
      → n ≤ max_nights
      → check_in + n ≤ q.window_end
      → q.min_nights ≤ℤ pos n
      → Reports q check_in (check_ins q days start) n
  unfolding check_ins
  check_ins_complete zero start check_in n h k p a m w l = absurd (omega arith)
  check_ins_complete (suc days) start check_in n h k p a m w l =
      elim (Bool-cases (leb check_in start)) [
        | inl here ↦
            let eq : check_in ≡ start = same_day check_in start h here in
            Reports-join_left check_in n (extend_stay q start max_nights 0 (pos 0))
              (check_ins q days (suc start))
              (subst (λ d. Reports q check_in (extend_stay q d max_nights 0 (pos 0)) n) eq
                (extend_stay_complete q check_in n max_nights 0 (pos 0) a m w l p (omega arith)
                  refl))
        | inr later ↦
            Reports-join_right check_in n (extend_stay q start max_nights 0 (pos 0))
              (check_ins q days (suc start))
              (check_ins_complete days (suc start) check_in n (next_day check_in start later)
                (omega arith) p a m w l)
      ]
    where
      same_day : (d s : ℕ) → s ≤ d → leb d s ≡ true → d ≡ s
      same_day d s h k = ground arith

      next_day : (d s : ℕ) → leb d s ≡ false → suc s ≤ d
      next_day d s k = ground arith
