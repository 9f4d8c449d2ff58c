-- ===== src/Parser/Check/Verdict.antt =====
-- When check_arg of parser.cpp accepts the settings of a run.
use gst_app.Prelude.{
  ℕ, ◌^◌, ◌≤◌, ◌<◌, ℤ, pos, negsuc, pos_part, neg_part, ◌≤ℤ◌, to_uint32, ◌≡◌, ◌≢◌, ◌⊎◌, ◌↔◌, refl,
  ap, sym, subst, ◌∙◌, Bool, false, List, [], ◌∷◌, get_or, drop, ◌+ℤ◌, ltb_ℤ, ltb, ◌==◌, arith, ap₂,
  ◌+◌, not, ◌&&◌, ◌||◌, Bool-cases, inl, inr, sub_ℕ, leb,
}
use gst_app.Prelude.{if◌then◌else◌}
use gst_app.Controls.{mode_total_fps_limit, zoom_center_sanitize}
use gst_app.Parser.Args.{CamConfig, Streams, CmdArg}
use gst_app.Parser.Knobs.{ProfileRange, check_center, check_cam}
use gst_app.Parser.Check.{check_cams, cam_fps, total_fps, verdict, checked, check_arg}

-- A sum of integers, without subtraction.
Adds : ℤ → ℤ → ℤ → Type 0
Adds a b s = pos_part s + neg_part a + neg_part b ≡ neg_part s + pos_part a + pos_part b

sub_ℕ-Adds : (a b : ℕ) → pos_part (sub_ℕ a b) + b ≡ neg_part (sub_ℕ a b) + a
sub_ℕ-Adds a b = elim (Bool-cases (leb b a)) [
  | inl below ↦ rw below (ground arith)
  | inr above ↦ rw above (ground arith)
]

add_ℤ-Adds : (a b : ℤ) → Adds a b (a +ℤ b)
unfolding Adds
add_ℤ-Adds a b = omega (arith, sub_ℕ-Adds (pos_part a + pos_part b) (neg_part a + neg_part b))

same_ℤ : (x y : ℤ) → pos_part x + neg_part y ≡ pos_part y + neg_part x → x ≡ y
same_ℤ (pos a) (pos b) e = ap pos (omega arith)
same_ℤ (pos a) (negsuc b) e = absurd (omega arith)
same_ℤ (negsuc a) (pos b) e = absurd (omega arith)
same_ℤ (negsuc a) (negsuc b) e = ap negsuc (omega arith)

-- Rows and columns have the same sum.
add_ℤ_rows : (a b c d : ℤ) → (a +ℤ b) +ℤ (c +ℤ d) ≡ (a +ℤ c) +ℤ (b +ℤ d)
unfolding Adds
add_ℤ_rows a b c d = same_ℤ _ _ (
    omega (
      arith,
      add_ℤ-Adds a b,
      add_ℤ-Adds c d,
      add_ℤ-Adds a c,
      add_ℤ-Adds b d,
      add_ℤ-Adds (a +ℤ b) (c +ℤ d),
      add_ℤ-Adds (a +ℤ c) (b +ℤ d),
    ))

add_ℤ_none : (a : ℤ) → a +ℤ pos 0 ≡ a
unfolding Adds
add_ℤ_none a = same_ℤ _ _ (omega (arith, add_ℤ-Adds a (pos 0)))

none_add_ℤ : (a : ℤ) → pos 0 +ℤ a ≡ a
unfolding Adds
none_add_ℤ a = same_ℤ _ _ (omega (arith, add_ℤ-Adds (pos 0) a))

-- What an int can hold.
abbrev pub IsInt : ℤ → Type 0
IsInt x = (pos_part x < 2 ^ 31) × (neg_part x ≤ 2 ^ 31)

-- A resolution that the camera has, with the frame rate that its two sensors share.
abbrev pub HasMode : ℤ → ℤ → ℕ → Type 0
HasMode width height limit =
    ((width ≡ pos 640) × (height ≡ pos 360) × (limit ≡ 240))
    ⊎ (((width ≡ pos 1280) × (height ≡ pos 720) × (limit ≡ 240))
        ⊎ ((width ≡ pos 1920) × (height ≡ pos 1080) × (limit ≡ 180)))

-- The frame rates of the enabled cameras in one stream, added up, if the stream counts.
abbrev pub stream_sum : Bool → List ℤ → List CamConfig → ℤ
stream_sum counts rates [] = pos 0
stream_sum counts rates (c ∷ cams) =
    (if counts && c.enable then get_or rates 0 (pos 0) else pos 0)
    +ℤ stream_sum counts (drop 1 rates) cams

-- What the encoders have to do: the recording if it is on, and the stream if it is on and has an
-- encoder of its own or nothing is recorded.
abbrev pub rates_of : CmdArg → ℤ
rates_of arg =
    stream_sum arg.stream_en.rec arg.fps.rec arg.cam
    +ℤ stream_sum (arg.stream_en.rtsp && (arg.dual_enc || not arg.stream_en.rec)) arg.fps.rtsp
        arg.cam

abbrev total_of : CmdArg → ℤ
total_of arg = total_fps arg.dual_enc arg.stream_en arg.fps.rec arg.fps.rtsp arg.cam

enable-check_cam :
    (dual : Bool) (range : ProfileRange) (rec rtsp : ℤ) (c : CamConfig)
    → (check_cam dual range rec rtsp c).enable ≡ c.enable
unfolding check_cam check_center zoom_center_sanitize
enable-check_cam dual range rec rtsp c = ground arith

cam_fps_streams :
    (dual : Bool) (streams : Streams) (rec rtsp : ℤ) (c : CamConfig)
    → cam_fps dual streams rec rtsp c
      ≡ (if streams.rec && c.enable then rec else pos 0)
        +ℤ (if (streams.rtsp && (dual || not streams.rec)) && c.enable then rtsp else pos 0)
unfolding cam_fps
cam_fps_streams dual streams rec rtsp c =
    ground (arith, add_ℤ_none rec, none_add_ℤ rtsp, add_ℤ_none (pos 0))

-- The sum of the code, camera by camera, is the sum of the streams.
total_fps-stream_sum :
    (dual : Bool) (streams : Streams) (rec rtsp : List ℤ) (cams : List CamConfig)
    → total_fps dual streams rec rtsp cams
      ≡ stream_sum streams.rec rec cams
        +ℤ stream_sum (streams.rtsp && (dual || not streams.rec)) rtsp cams
unfolding total_fps
total_fps-stream_sum dual streams rec rtsp [] = refl
total_fps-stream_sum dual streams rec rtsp (c ∷ cams) =
    ap₂ (λ (a b : ℤ). a +ℤ b)
      (cam_fps_streams dual streams (get_or rec 0 (pos 0)) (get_or rtsp 0 (pos 0)) c)
      (total_fps-stream_sum dual streams (drop 1 rec) (drop 1 rtsp) cams)
    ∙ add_ℤ_rows _ _ _ _

-- The checks on the cameras change no frame rate.
total_fps-check_cams :
    (dual dual' : Bool) (range : ProfileRange) (streams : Streams) (rec rtsp : List ℤ)
    (cams : List CamConfig)
    → total_fps dual streams rec rtsp (check_cams dual' range rec rtsp cams)
      ≡ total_fps dual streams rec rtsp cams
unfolding check_cams total_fps
total_fps-check_cams dual dual' range streams rec rtsp [] = refl
total_fps-check_cams dual dual' range streams rec rtsp (c ∷ cams) =
    rw (enable-check_cam dual' range (get_or rec 0 (pos 0)) (get_or rtsp 0 (pos 0)) c) (
      ap (λ t. cam_fps dual streams (get_or rec 0 (pos 0)) (get_or rtsp 0 (pos 0)) c +ℤ t)
        (total_fps-check_cams dual dual' range streams (drop 1 rec) (drop 1 rtsp) cams))

mode_total_fps_limit_iff :
    (width height : ℤ)
    → IsInt width
    → IsInt height
    → (limit : ℕ)
    → HasMode width height limit
      ↔ ((mode_total_fps_limit (to_uint32 width) (to_uint32 height) ≡ limit) × (limit ≢ 0))
unfolding mode_total_fps_limit
mode_total_fps_limit_iff (pos a) (pos b) w h limit = (λ m. ground arith, λ e. ground arith)
mode_total_fps_limit_iff (pos a) (negsuc b) w h limit = (λ m. ground arith, λ e. ground arith)
mode_total_fps_limit_iff (negsuc a) (pos b) w h limit = (λ m. ground arith, λ e. ground arith)
mode_total_fps_limit_iff (negsuc a) (negsuc b) w h limit = (λ m. ground arith, λ e. ground arith)

to_uint32_iff :
    (total : ℤ) (limit : ℕ)
    → IsInt total
    → limit < 2 ^ 31
    → (ltb limit (to_uint32 total) ≡ false) ↔ ((pos 0 ≤ℤ total) × (total ≤ℤ pos limit))
to_uint32_iff (pos n) limit h l = ground arith
to_uint32_iff (negsuc n) limit h l = ground arith

judged :
    (duration : ℤ) (limit : ℕ) (cast : ℕ)
    → ((if ltb_ℤ duration (pos 1)
          then negsuc 0
          else if limit == 0
          then negsuc 0
          else if ltb limit cast
          then negsuc 0
          else pos 0)
        ≡ pos 0)
      ↔ ((pos 1 ≤ℤ duration) × (limit ≢ 0) × (ltb limit cast ≡ false))
judged duration limit cast = (λ e. ground arith, λ h. ground arith)

limit_small : (w h : ℕ) → mode_total_fps_limit w h < 2 ^ 31
unfolding mode_total_fps_limit
limit_small w h = ground arith

check_arg_iff_total :
    (cmd : CmdArg) (errors : ℕ) (arg : CmdArg)
    → IsInt arg.width
    → IsInt arg.height
    → IsInt (total_of arg)
    → ((check_arg cmd errors arg).code ≡ pos 0) ↔ (
        (pos 1 ≤ℤ arg.duration)
        × ((limit : ℕ) × HasMode arg.width arg.height limit
            × (pos 0 ≤ℤ total_of arg)
            × (total_of arg ≤ℤ pos limit)))
unfolding check_arg checked verdict
check_arg_iff_total cmd errors arg w h t =
    rw
      (total_fps-check_cams arg.dual_enc arg.dual_enc _ arg.stream_en arg.fps.rec arg.fps.rtsp
        arg.cam)
      (
        λ e.
            let (long, some_mode, low) =
              (judged arg.duration limit (to_uint32 (total_of arg))).0 e in
            let bounds = (to_uint32_iff (total_of arg) limit t small).0 low in
            let mode =
              (mode_total_fps_limit_iff arg.width arg.height w h limit).1 (refl, some_mode) in
            (long, (limit, mode, bounds.0, bounds.1)),
        λ r.
            let (long, (given, mode, low, high)) = r in
            let (same, nonzero) =
              (mode_total_fps_limit_iff arg.width arg.height w h given).0 mode in
            let kept = subst (λ l. total_of arg ≤ℤ pos l) (sym same) high in
            (judged arg.duration limit (to_uint32 (total_of arg))).1 (
              long,
              λ z. nonzero (sym same ∙ z),
              (to_uint32_iff (total_of arg) limit t small).1 (low, kept),
            ),
      )
  where
    limit : ℕ
    limit = mode_total_fps_limit (to_uint32 arg.width) (to_uint32 arg.height)

    small : limit < 2 ^ 31
    small = limit_small (to_uint32 arg.width) (to_uint32 arg.height)

-- Settings of ints are accepted exactly when the run has a length, the camera has the resolution,
-- and the frame rates of the enabled cameras, in the streams that are encoded, add up to no
-- negative number and no more than the resolution allows.
pub check_arg_iff :
    (cmd : CmdArg) (errors : ℕ) (arg : CmdArg)
    → IsInt arg.width
    → IsInt arg.height
    → IsInt (rates_of arg)
    → ((check_arg cmd errors arg).code ≡ pos 0) ↔ (
        (pos 1 ≤ℤ arg.duration)
        × ((limit : ℕ) × HasMode arg.width arg.height limit
            × (pos 0 ≤ℤ rates_of arg)
            × (rates_of arg ≤ℤ pos limit)))
check_arg_iff cmd errors arg w h =
    subst
      (λ (total : ℤ).
        IsInt total
        → ((check_arg cmd errors arg).code ≡ pos 0) ↔ (
            (pos 1 ≤ℤ arg.duration)
            × ((limit : ℕ) × HasMode arg.width arg.height limit
                × (pos 0 ≤ℤ total)
                × (total ≤ℤ pos limit))))
      (total_fps-stream_sum arg.dual_enc arg.stream_en arg.fps.rec arg.fps.rtsp arg.cam)
      (check_arg_iff_total cmd errors arg w h)
