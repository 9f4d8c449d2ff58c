-- ===== src/RtspSync/FrameId.antt =====
-- The frame numbers and the formats of the RTSP streams. Caps are taken as what GStreamer answers
-- about them; `gst_util_uint64_scale_round` is a parameter.
pub mod Laws
use gst_app.Prelude.{
  ℕ, suc, ◌+◌, ◌*◌, ◌-◌, ◌^◌, ℤ, pos, negsuc, is_pos, pos_part, Bool, true, false, ◌&&◌, ◌||◌, not,
  List, [], ◌∷◌, length, get_or, Option, none, some, codes, same_bytes, ltb, leb, ◌==◌,
  if◌then◌else◌,
}

abbrev pub max_channel : ℕ
max_channel = 4

-- The part of `CmdArg` that the RTSP streams look at.
pub record CmdArg : Type 0 where
  pub stream_rec : Bool
  pub stream_rtsp : Bool
  pub dual_enc : Bool
  pub fps_rec : ℕ → ℤ
  pub fps_rtsp : ℕ → ℤ
  pub enc : List ℕ

-- One structure of a caps object.
pub record Structure : Type 0 where
  pub name : List ℕ
  pub stream_format : Option (List ℕ)
  pub alignment : Option (List ℕ)
  pub framerate : Option (ℤ × ℤ)

pub record Caps : Type 0 where
  pub fixed : Bool
  pub structures : List Structure

abbrev pub enc_h264 : List ℕ
enc_h264 = codes "h264"

abbrev pub enc_h265 : List ℕ
enc_h265 = codes "h265"

-- GST_CLOCK_TIME_NONE, and one second.
abbrev pub clock_time_none : ℕ
clock_time_none = 2 ^ 64 - 1

abbrev pub gst_second : ℕ
gst_second = 1000000000

-- `none` is a missing `CmdArg`.
unfoldable pub rate_for_channel : Option CmdArg → ℕ → ℕ
rate_for_channel none channel = 0
rate_for_channel (some arg) channel =
    if leb max_channel channel || not arg.stream_rtsp
    then 0
    else let fps =
        if arg.dual_enc
        then arg.fps_rtsp channel
        else if arg.stream_rec
        then arg.fps_rec channel
        else arg.fps_rtsp channel in
      pos_part fps

-- The only structure of fixed caps.
abbrev sole : Caps → Option Structure
sole caps =
    if not caps.fixed
    then none
    else elim caps.structures [ [] ↦ none | s ∷ [] ↦ some s | s ∷ t ∷ more ↦ none ]

abbrev positive_rate : Structure → Option (ℕ × ℕ)
positive_rate s = elim s.framerate [
  | none ↦ none
  | some (numerator, denominator) ↦
      if is_pos numerator && is_pos denominator
      then some (pos_part numerator, pos_part denominator)
      else none
]

-- `none` is FALSE, and the frame id untouched.
module _ (scale_round : ℕ → ℕ → ℕ → ℕ) where
  unfoldable pub frame_id_from_pts : ℕ → ℕ → Option ℕ
  frame_id_from_pts origin_pts fps =
      if fps == 0 || origin_pts == clock_time_none
      then none
      else some (scale_round origin_pts fps gst_second)

  unfoldable pub frame_id_from_caps_pts : Option Caps → ℕ → Option ℕ
  frame_id_from_caps_pts none origin_pts = none
  frame_id_from_caps_pts (some caps) origin_pts =
      if origin_pts == clock_time_none then none else elim (sole caps) [
        | none ↦ none
        | some s ↦ elim (positive_rate s) [
          | none ↦ none
          | some (numerator, denominator) ↦
              some (scale_round origin_pts numerator (gst_second * denominator))
        ]
      ]

abbrev is_text : Option (List ℕ) → List ℕ → Bool
is_text none text = false
is_text (some t) text = same_bytes t text

unfoldable pub h265_au_caps_compatible : Option CmdArg → ℕ → Option Caps → Bool
h265_au_caps_compatible none channel caps = false
h265_au_caps_compatible (some arg) channel none = false
h265_au_caps_compatible (some arg) channel (some caps) =
    if leb max_channel channel || not (same_bytes arg.enc enc_h265)
    then false
    else elim (sole caps) [
      | none ↦ false
      | some s ↦
          if not (same_bytes s.name (codes "video/x-h265"))
          then false
          else is_text s.stream_format (codes "byte-stream")
            && is_text s.alignment (codes "au")
            && (elim (positive_rate s) [ none ↦ false | some r ↦ true ])
    ]

-- The size of the buffer, and the bytes that were extracted from its front, four at most.
unfoldable pub h265_annex_b_au_buffer : ℕ → List ℕ → Bool
h265_annex_b_au_buffer size prefix =
    if ltb size 5
    then false
    else leb 3 (length prefix)
      && get_or prefix 0 0 == 0
      && get_or prefix 1 0 == 0
      && (get_or prefix 2 0 == 1
          || (length prefix == 4 && get_or prefix 2 0 == 0 && get_or prefix 3 0 == 1))

unfoldable pub frame_id_insertion_allowed : Option CmdArg → ℕ → Option Caps → Bool
frame_id_insertion_allowed arg channel caps =
    h265_au_caps_compatible arg channel caps && ltb 0 (rate_for_channel arg channel)

-- The caps that a channel falls back to; the channel after the cameras is the audio.
pub data FallbackCaps : Type 0 where
  mpeg_audio h265_byte_stream h264_byte_stream : FallbackCaps

unfoldable pub media_fallback_caps : ℕ → List ℕ → Option FallbackCaps
media_fallback_caps channel encoder =
    if channel == max_channel
    then some mpeg_audio
    else if leb max_channel channel
    then none
    else if same_bytes encoder enc_h265
    then some h265_byte_stream
    else if same_bytes encoder enc_h264
    then some h264_byte_stream
    else none
