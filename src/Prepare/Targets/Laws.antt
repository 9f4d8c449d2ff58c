-- ===== src/Prepare/Targets/Laws.antt =====
-- What the targets of `max9296_prepare_build_targets` promise to the driver.
use gst_app.Prelude.{
  ℕ, zero, suc, ◌*◌, ◌≤◌, ◌<◌, ◌≡◌, ◌≢◌, ◌⊎◌, ◌↔◌, true, arith, some, ◌+◌, sym, subst, Option, none,
  ℤ, IsNegative,
}
use gst_app.Prepare.Types.{Two, PrepareInput, PrepareTarget, ok, err}
use gst_app.Prepare.Targets.{build_targets, target_for, max_fps_for, mode_name, table_name}

-- The modes that the driver has a table for, with the most frames per second of each.
abbrev pub Mode : ℕ → ℕ → ℕ → Type 0
Mode width height limit =
    ((width ≡ 640) × (height ≡ 360) × (limit ≡ 120))
    ⊎ ((width ≡ 1280) × (height ≡ 720) × (limit ≡ 60))
    ⊎ ((width ≡ 1920) × (height ≡ 1080) × (limit ≡ 30))

-- What a request must be like: a known mode, flags of 0 or 1, and on each domain with a channel a
-- rate within the mode's limit, the same on both domains.
pub record IsRequest (input : PrepareInput) (limit : ℕ) : Type 0 where
  pub mode : Mode input.width input.height limit
  pub generation : input.generation ≢ 0
  pub flag0 : input.ch0 ≤ 1
  pub flag1 : input.ch1 ≤ 1
  pub flag2 : input.ch2 ≤ 1
  pub flag3 : input.ch3 ≤ 1
  pub rate0 : 0 < input.ch0 + input.ch1 → (0 < input.fps.csi0) × (input.fps.csi0 ≤ limit)
  pub rate1 : 0 < input.ch2 + input.ch3 → (0 < input.fps.csi1) × (input.fps.csi1 ≤ limit)
  pub rates :
      0 < input.ch0 + input.ch1 → 0 < input.ch2 + input.ch3 → input.fps.csi0 ≡ input.fps.csi1

-- What a domain is asked for: its channels as bits, the double width exactly for both channels.
pub record Asks (input : PrepareInput) (left right fps : ℕ) (t : PrepareTarget) : Type 0 where
  pub enable : t.enable ≡ left + 2 * right
  pub active : (t.active ≡ true) ↔ (0 < left + right)
  pub single : t.enable ≢ 3 → t.width ≡ input.width
  pub dual : t.enable ≡ 3 → t.width ≡ 2 * input.width
  pub height : t.height ≡ input.height
  pub fps_kept : t.fps ≡ fps
  pub mode : t.mode ≡ mode_name t.enable
  pub table : t.table ≡ table_name t.enable

target_for-Asks :
    (input : PrepareInput) (csi fps left right : ℕ)
    → left ≤ 1
    → right ≤ 1
    → input.width ≤ 1920
    → Asks input left right fps (target_for input csi fps left right)
unfolding target_for
target_for-Asks input csi fps zero zero hl hr hw = ground arith
target_for-Asks input csi fps zero (suc zero) hl hr hw = ground arith
target_for-Asks input csi fps (suc zero) zero hl hr hw = ground arith
target_for-Asks input csi fps (suc zero) (suc zero) hl hr hw = ground arith
target_for-Asks input csi fps (suc (suc left)) right hl hr hw = absurd (omega arith)
target_for-Asks input csi fps left (suc (suc right)) hl hr hw = absurd (omega arith)

Mode-bounds : (width height limit : ℕ) → Mode width height limit → width ≤ 1920
Mode-bounds width height limit m = ground arith

max_fps_for-Mode :
    (width height limit : ℕ) → Mode width height limit → max_fps_for width height ≡ limit
unfolding max_fps_for
max_fps_for-Mode width height limit m = ground arith

module _ (input : PrepareInput) where
  abbrev wanted0 : PrepareTarget
  wanted0 = target_for input 0 input.fps.csi0 input.ch0 input.ch1

  abbrev wanted1 : PrepareTarget
  wanted1 = target_for input 1 input.fps.csi1 input.ch2 input.ch3

  abbrev Rated : PrepareTarget → Type 0
  Rated t = t.active ≡ true → (0 < t.fps) × (t.fps ≤ max_fps_for input.width input.height)

  accepted :
      (ts : Two PrepareTarget)
      → build_targets (some input) ≡ ok ts
      → (input.generation ≢ 0)
        × Mode input.width input.height (max_fps_for input.width input.height)
        × (input.ch0 ≤ 1)
        × (input.ch1 ≤ 1)
        × (input.ch2 ≤ 1)
        × (input.ch3 ≤ 1)
        × (ts.csi0 ≡ wanted0)
        × (ts.csi1 ≡ wanted1)
  unfolding build_targets max_fps_for
  accepted ts h = ground arith

  accepted_rates :
      (ts : Two PrepareTarget)
      → build_targets (some input) ≡ ok ts
      → Rated wanted0
        × Rated wanted1
        × (wanted0.active ≡ true → wanted1.active ≡ true → wanted0.fps ≡ wanted1.fps)
  unfolding build_targets
  accepted_rates ts h = ground arith

  -- A request that is accepted is well formed, and each domain's target asks for exactly its
  -- channels, its rate and its mode, with the doubled width exactly for two channels.
  pub build_targets-Asks :
      (ts : Two PrepareTarget)
      → build_targets (some input) ≡ ok ts
      → (limit : ℕ) × IsRequest input limit
        × Asks input input.ch0 input.ch1 input.fps.csi0 ts.csi0
        × Asks input input.ch2 input.ch3 input.fps.csi1 ts.csi1
  build_targets-Asks ts h =
      let a = accepted ts h in
      let r = accepted_rates ts h in
      let asks0 =
        target_for-Asks input 0 input.fps.csi0 input.ch0 input.ch1 a.2 a.3
          (Mode-bounds _ _ _ a.1) in
      let asks1 =
        target_for-Asks input 1 input.fps.csi1 input.ch2 input.ch3 a.4 a.5
          (Mode-bounds _ _ _ a.1) in
      (
        max_fps_for input.width input.height,
        record {
          mode = a.1;
          generation = a.0;
          flag0 = a.2;
          flag1 = a.3;
          flag2 = a.4;
          flag3 = a.5;
          rate0 = λ p. rw asks0.fps_kept at (r.0 (asks0.active.1 p));
          rate1 = λ p. rw asks1.fps_kept at (r.1 (asks1.active.1 p));
          rates =
              λ p q. cc (asks0.fps_kept, asks1.fps_kept, r.2 (asks0.active.1 p) (asks1.active.1 q));
        },
        subst (Asks input input.ch0 input.ch1 input.fps.csi0) (sym a.6) asks0,
        subst (Asks input input.ch2 input.ch3 input.fps.csi1) (sym a.7) asks1,
      )

  -- Every well-formed request is accepted.
  pub build_targets_total :
      (limit : ℕ)
      → IsRequest input limit
      → (ts : Two PrepareTarget) × (build_targets (some input) ≡ ok ts)
  unfolding build_targets
  build_targets_total limit r =
      let fast = Mode-bounds _ _ _ r.mode in
      (
        record { csi0 = wanted0; csi1 = wanted1 },
        ground (
          arith,
          target_for-Asks input 0 input.fps.csi0 input.ch0 input.ch1,
          target_for-Asks input 1 input.fps.csi1 input.ch2 input.ch3,
          max_fps_for-Mode input.width input.height limit,
        ),
      )

pub build_targets-IsNegative :
    (input : Option PrepareInput) (e : ℤ) → build_targets input ≡ err e → IsNegative e
unfolding build_targets
build_targets-IsNegative none e h = ground arith
build_targets-IsNegative (some input) e h = ground arith
