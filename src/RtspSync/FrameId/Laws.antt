-- ===== src/RtspSync/FrameId/Laws.antt =====
-- What the frame numbers and the formats promise to the receiver of a stream.
use gst_app.Prelude.{
  ℕ, ◌+◌, ◌*◌, ◌/◌, ◌^◌, ◌≤◌, ◌<◌, ◌≡◌, ◌⊎◌, ◌↔◌, pos, true, false, [], ◌∷◌, Option, none, some,
  same_bytes, leb, arith,
}
use gst_app.RtspSync.FrameId.{
  max_channel, CmdArg, Structure, Caps, enc_h265, clock_time_none, gst_second, rate_for_channel,
  frame_id_from_pts, frame_id_from_caps_pts, h265_au_caps_compatible, h265_annex_b_au_buffer,
  frame_id_insertion_allowed, h265_byte_stream, media_fallback_caps,
}

nearest :
    (x k : ℕ)
    → k * gst_second ≤ x + 500000000
    → x < k * gst_second + 500000000
    → (x + gst_second / 2) / gst_second ≡ k
nearest x k low high = omega arith

-- `scale_round` rounds to the nearest, as GStreamer documents, where the result has 64 bits.
abbrev pub Rounds : (ℕ → ℕ → ℕ → ℕ) → Type 0
Rounds scale_round =
    (v n d : ℕ) → 0 < d → (v * n + d / 2) / d < 2 ^ 64 → scale_round v n d ≡ (v * n + d / 2) / d

module _ (scale_round : ℕ → ℕ → ℕ → ℕ) (rounds : Rounds scale_round) where
  -- With a scaling that rounds to the nearest, a time that is within half a frame of the k-th
  -- frame's time, in a stream with a frame rate, gives the frame number k.
  frame_id_from_pts-nearest :
      (pts fps k : ℕ)
      → pts < clock_time_none
      → 0 < fps
      → k < 2 ^ 64
      → k * gst_second ≤ pts * fps + 500000000
      → pts * fps < k * gst_second + 500000000
      → frame_id_from_pts scale_round pts fps ≡ some k
  unfolding frame_id_from_pts
  frame_id_from_pts-nearest pts fps k valid rate small low high =
      let e = nearest (pts * fps) k low high in
      let r = rounds pts fps gst_second (omega arith) (rw e small) in ground (arith, e, r)

-- The caps have a single structure with the frame rate `fps`, as a whole number.
pub record Paced (caps : Caps) (fps : ℕ) : Type 0 where
  pub fixed : caps.fixed ≡ true
  pub structure : Structure
  pub only : caps.structures ≡ structure ∷ []
  pub rate : structure.framerate ≡ some (pos fps, pos 1)

-- Fixed caps with a whole frame rate number the frames as that rate does by itself.
frame_id_from_caps_pts-pts :
    (scale_round : ℕ → ℕ → ℕ → ℕ) (caps : Caps) (pts fps : ℕ)
    → Paced caps fps
    → frame_id_from_caps_pts scale_round (some caps) pts ≡ frame_id_from_pts scale_round pts fps
unfolding frame_id_from_caps_pts frame_id_from_pts
frame_id_from_caps_pts-pts scale_round caps pts fps p = rw (p.fixed, p.only, p.rate) (ground arith)

-- A buffer of five bytes or more that begins with a start code of three or four bytes.
h265_annex_b_au_buffer_iff :
    (size a b c d : ℕ)
    → (h265_annex_b_au_buffer size (a ∷ b ∷ c ∷ d ∷ []) ≡ true)
      ↔ ((5 ≤ size) × (a ≡ 0) × (b ≡ 0) × ((c ≡ 1) ⊎ (c ≡ 0) × (d ≡ 1)))
unfolding h265_annex_b_au_buffer
h265_annex_b_au_buffer_iff size a b c d = ground arith

rate-stream :
    (arg : CmdArg) (channel : ℕ) → 0 < rate_for_channel (some arg) channel → arg.stream_rtsp ≡ true
unfolding rate_for_channel
rate-stream arg channel h = ground arith

-- A channel whose frames may be numbered has a positive rate, and falls back to caps for H.265.
insertion_allowed-fallback :
    (arg : CmdArg) (channel : ℕ) (caps : Option Caps)
    → frame_id_insertion_allowed (some arg) channel caps ≡ true
    → (channel < max_channel)
      × (arg.stream_rtsp ≡ true)
      × (0 < rate_for_channel (some arg) channel)
      × (media_fallback_caps channel arg.enc ≡ some h265_byte_stream)
unfolding frame_id_insertion_allowed h265_au_caps_compatible media_fallback_caps
insertion_allowed-fallback arg channel none h = absurd (ground arith)
insertion_allowed-fallback arg channel (some caps) h =
    let rated : 0 < rate_for_channel (some arg) channel = ground arith in
    let fits : leb max_channel channel ≡ false = ground arith in
    let coded : same_bytes arg.enc enc_h265 ≡ true = ground arith in
    (ground arith, rate-stream arg channel rated, rated, ground arith)
