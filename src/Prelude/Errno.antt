-- ===== src/Prelude/Errno.antt =====
-- The negated error codes of errno.h that the source returns.
use gst_app.Prelude.Int.{ℤ, negsuc}

abbrev pub enoent : ℤ
enoent = negsuc 1

abbrev pub eio : ℤ
eio = negsuc 4

abbrev pub eagain : ℤ
eagain = negsuc 10

abbrev pub ebusy : ℤ
ebusy = negsuc 15

abbrev pub einval : ℤ
einval = negsuc 21

abbrev pub eproto : ℤ
eproto = negsuc 70

abbrev pub eoverflow : ℤ
eoverflow = negsuc 74

abbrev pub estale : ℤ
estale = negsuc 115
