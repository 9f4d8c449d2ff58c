-- ===== src/Parser/Options/Rates.antt =====
-- The frame rates of the two CSIs that arg_parser of parser.cpp derives.
use gst_app.Prelude.{
  if◌then◌else◌, ℕ, ℤ, pos, ◌≤ℤ◌, ◌≡◌, ◌⊎◌, inl, inr, refl, List, [], ◌∷◌, get_or, is_pos, All,
  subst, sym, arith,
}
use gst_app.Parser.Args.{Fps, CmdArg}
use gst_app.Parser.Options.{raise, raise_stream, max_rates, derive}

raise_bounds : (max rate : ℤ) → (max ≤ℤ raise max rate) × (rate ≤ℤ raise max rate)
unfolding raise
raise_bounds max rate = ground arith

raise_one : (max rate : ℤ) → (raise max rate ≡ max) ⊎ (raise max rate ≡ rate)
unfolding raise
raise_one max rate = ground arith

abbrev pub OneOf : ℤ → List ℤ → Type 0
OneOf x [] = ⊥
OneOf x (y ∷ ys) = (x ≡ y) ⊎ OneOf x ys

raise-OneOf : (max rate : ℤ) (xs : List ℤ) → OneOf max xs → OneOf (raise max rate) (rate ∷ xs)
raise-OneOf max rate xs h = elim (raise_one max rate) [
  | inl e ↦ inr (subst (λ t. OneOf t xs) (sym e) h)
  | inr e ↦ inl e
]

-- The greatest rate of two channels, or zero where none is positive.
pub record Greatest (top a b c d e f : ℤ) : Type 0 where
  pub above : All (λ x. x ≤ℤ top) (a ∷ (b ∷ (c ∷ (d ∷ (e ∷ (f ∷ (pos 0 ∷ [])))))))
  pub reached : OneOf top (f ∷ (e ∷ (d ∷ (c ∷ (b ∷ (a ∷ (pos 0 ∷ [])))))))

raise_all :
    (a b c d e f : ℤ)
    → Greatest (raise (raise (raise (raise (raise (raise (pos 0) a) b) c) d) e) f) a b c d e f
raise_all a b c d e f =
    let m1 : ℤ = raise (pos 0) a in
    let m2 : ℤ = raise m1 b in
    let m3 : ℤ = raise m2 c in
    let m4 : ℤ = raise m3 d in
    let m5 : ℤ = raise m4 e in
    let b1 = raise_bounds (pos 0) a in
    let b2 = raise_bounds m1 b in
    let b3 = raise_bounds m2 c in
    let b4 = raise_bounds m3 d in
    let b5 = raise_bounds m4 e in
    let b6 = raise_bounds m5 f in
    let l0 : List ℤ = pos 0 ∷ [] in
    let l1 : List ℤ = a ∷ l0 in
    let l2 : List ℤ = b ∷ l1 in
    let l3 : List ℤ = c ∷ l2 in
    let l4 : List ℤ = d ∷ l3 in
    let l5 : List ℤ = e ∷ l4 in
    let o1 = raise-OneOf (pos 0) a l0 (inl refl) in
    let o2 = raise-OneOf m1 b l1 o1 in
    let o3 = raise-OneOf m2 c l2 o2 in
    let o4 = raise-OneOf m3 d l3 o3 in
    let o5 = raise-OneOf m4 e l4 o4 in
    let o6 = raise-OneOf m5 f l5 o5 in
    record {
      above = (
        omega arith,
        (
          omega arith,
          (omega arith, (omega arith, (omega arith, (omega arith, (omega arith, tt))))),
        ),
      );
      reached = o6;
    }

abbrev rate : List ℤ → ℕ → ℤ
rate rates ch = get_or rates ch (pos 0)

max_rates_lem :
    (fps : Fps)
    → (Greatest
        (max_rates fps).0
        (rate fps.rec 0)
        (rate fps.rec 1)
        (rate fps.rtsp 0)
        (rate fps.rtsp 1)
        (rate fps.cap 0)
        (rate fps.cap 1))
      × Greatest
          (max_rates fps).1
          (rate fps.rec 2)
          (rate fps.rec 3)
          (rate fps.rtsp 2)
          (rate fps.rtsp 3)
          (rate fps.cap 2)
          (rate fps.cap 3)
unfolding max_rates raise_stream
max_rates_lem fps = (
  raise_all (rate fps.rec 0) (rate fps.rec 1) (rate fps.rtsp 0) (rate fps.rtsp 1) (rate fps.cap 0)
      (rate fps.cap 1),
  raise_all (rate fps.rec 2) (rate fps.rec 3) (rate fps.rtsp 2) (rate fps.rtsp 3) (rate fps.cap 2)
      (rate fps.cap 3),
)

-- The rate of a CSI after arg_parser: the greatest rate that the three streams set for its two
-- channels, or the rate that it had where none of them is positive.
pub record MainRate (old new a b c d e f : ℤ) : Type 0 where
  pub top : ℤ
  pub greatest : Greatest top a b c d e f
  pub outcome : ((pos 1 ≤ℤ top) × (new ≡ top)) ⊎ ((top ≤ℤ pos 0) × (new ≡ old))

rate_outcome :
    (top old : ℤ)
    → ((pos 1 ≤ℤ top) × ((if is_pos top then top else old) ≡ top))
      ⊎ ((top ≤ℤ pos 0) × ((if is_pos top then top else old) ≡ old))
rate_outcome top old = ground arith

main_rate :
    (top old a b c d e f : ℤ)
    → Greatest top a b c d e f
    → MainRate old (if is_pos top then top else old) a b c d e f
main_rate top old a b c d e f g = record { top = top; greatest = g; outcome = rate_outcome top old }

-- After the options are read, the rate of CSI 2 is the greatest rate that the three streams set for
-- channels 0 and 1, and the rate of CSI 1 the greatest one of channels 2 and 3; where no rate of
-- the two channels is positive, the CSI keeps its rate.
pub derive-MainRate :
    (arg : CmdArg)
    → MainRate arg.main_fps1
        (derive arg).main_fps1
        (rate arg.fps.rec 0)
        (rate arg.fps.rec 1)
        (rate arg.fps.rtsp 0)
        (rate arg.fps.rtsp 1)
        (rate arg.fps.cap 0)
        (rate arg.fps.cap 1)
      × MainRate arg.main_fps0
          (derive arg).main_fps0
          (rate arg.fps.rec 2)
          (rate arg.fps.rec 3)
          (rate arg.fps.rtsp 2)
          (rate arg.fps.rtsp 3)
          (rate arg.fps.cap 2)
          (rate arg.fps.cap 3)
unfolding derive
derive-MainRate arg =
    let fps : Fps = arg.fps in
    (
      main_rate (max_rates fps).0 arg.main_fps1 _ _ _ _ _ _ (max_rates_lem fps).0,
      main_rate (max_rates fps).1 arg.main_fps0 _ _ _ _ _ _ (max_rates_lem fps).1,
    )
