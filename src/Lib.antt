-- ===== src/Lib.antt =====
-- gstApp records and streams up to four cameras with GStreamer on an i.MX8 board. This library models
-- the parts of the program that decide something by themselves, and proves what they promise.
--
-- The parts and their files:
-- * max9296Prepare.cpp powers up the cameras of two CSI domains as one transaction. `Prepare.Types`
--   has its structures; `Prepare.Targets` is max9296_prepare_build_targets; `Prepare.Number` and
--   `Prepare.Status` are the parser of the driver's status line (max9296_prepare_parse_status);
--   `Prepare.Classify` is max9296_prepare_classify; `Prepare.Writes` has retry_write and
--   read_status; `Prepare.Generation` is max9296_prepare_generate_generation; `Prepare.Transaction`
--   has the phases of max9296_prepare_all for one domain (prepare_worker_entry,
--   validate_final_status); `Prepare.Coordinator` runs the phases over both domains
--   (max9296_prepare_all) and has max9296_prepare_cancel_domain.
-- * max9296Controls.cpp computes the values of the camera controls: `Controls`.
-- * rtspSync.cpp shares cancellable generations between RTSP pipelines and numbers frames:
--   `RtspSync.Generation` (the calls at the grain of their atomic operations), `RtspSync.Wait`
--   (rtsp_sync_generation_wait), `RtspSync.FrameId`.
-- * encoderStat.cpp counts what the encoder does: `EncoderStat`, where the calls that raise a maximum
--   take turns, one access of an atomic at a time. healthProducer.cpp reads those
--   counters once a second and publishes a health document: `HealthProducer` (the observations and
--   the notes), `HealthProducer.Publish` (publish).
-- * cfgjson.cpp reads integer arrays and truth values of a JSON configuration: `CfgJson`.
-- * parser.cpp turns a JSON document and the command line into the settings of a run. `Parser.Args`
--   has the structures of util.h, `Parser.Consts` the constants of parser.h; `Parser.Init` is
--   init_arg, `Parser.Load` is json_parser (its sections, its loop over the cameras, the document)
--   on the getters of `Parser.Getters`, `Parser.Options` is what arg_parser derives and
--   apply_camera_sysfs, `Parser.Check` is check_arg, with the encoder settings of one camera in
--   `Parser.Knobs`, and `Parser.Requests` is cfi_parser, which reads the capture requests of a
--   client. Settings go to the parts above: check_arg calls the sanitisers of `Controls`, and the
--   getters read arrays and truth values by `CfgJson`.
-- * captureBin.cpp writes single frames to files. `Capture` has its data and addCaptureRequest, which
--   cfi_parser calls; `Capture.Service` has the steps that serve the requests
--   (on_new_sample_to_file, checkTimeout, the worker thread, stopCapture), any sequence of which is a
--   run. Every request is kept in a list, and the shared pointers of the code are places in it.
-- * aes.cpp enciphers the password file: `Aes.Tables`, `Aes.Field` and `Aes.Rounds` have the steps of
--   the cipher, `Aes.Cipher` the key schedule and both directions of a block, `Aes.Password`
--   encrypt_get_passwd and encrypt_change_passwd.
-- * util.cpp has helpers, of which `Util.LogOnce` (log_once), `Util.Hex` (compareBuf and
--   convert_data_to_hex) and `Util.Files` (safe_write_file, safe_mkdir_p, check_sd_mount_flag) are
--   modelled.
-- `Prelude` has the names, tests, lists, integers and error codes that all parts share. The modules
-- named Laws, and those named for what they prove, hold the theorems, and the Tests modules run them
-- at concrete inputs.
--
-- How the code is read: C texts are lists of bytes, integers of a fixed width are natural numbers
-- (with their wrap-around written out where the code can reach it) or the integers of `Prelude`,
-- error returns are values. What the driver, the clock, the threads, json-c and GStreamer answer is
-- an argument of the functions. The retry loops run on the three attempts that the code allows; the
-- parser is structural in the line; the endless loops (exchange_loop, wait_loop, the joins of a
-- worker) take the list of what each round sees, and answer that they have not ended where the list
-- ends first; the loops that raise a maximum advance by events of a run. The padding loop of the password has sixteen rounds of
-- fuel, of which at most fifteen are used. `decimal` prints at most twenty digits, which every
-- 64-bit number fits.
--
-- Not modelled: the system calls behind the I/O table and the owner lock of max9296Prepare.cpp; the
-- start of the health producer and its reading of the environment; the pipelines (encoderBin.cpp,
-- videoBin.cpp, muxSinkBin.cpp, recordBin.cpp, audioBin.cpp, rtspServerBin.cpp, and captureBin.cpp
-- but for its requests), which assemble GStreamer elements; the table of command-line options and
-- cmd_parser of parser.cpp; tcpServer.cpp, ipc.cpp, main.cpp and the rest of util.cpp. Null pointers
-- for reports, generations and buffers that every caller passes are left out.
pub mod Prelude
pub mod Controls
pub mod Prepare
pub mod RtspSync
pub mod EncoderStat
pub mod Aes
pub mod Capture
pub mod CfgJson
pub mod Parser
pub mod HealthProducer
pub mod Util
