-- ===== src/HealthProducer/Duties.antt =====
-- How a health document is written, logged, and what makes a channel stall in it.
use gst_app.Prelude.{
  ℕ, ◌+◌, ◌*◌, ◌<◌, ◌≡◌, ◌≢◌, ◌↔◌, inl, inr, true, false, List, Option, none, some, Option-cases,
  arith,
}
use gst_app.HealthProducer.{
  usec_per_sec, ChannelHealth, Health, Code, source_stall, note_q_in, observe_gstreamer,
  observe_channel, Flags,
}
use gst_app.HealthProducer.Publish.{
  FileAnswers, write_step, write_file, log_failed, log_recovered, Surroundings, Published, publish,
}

-- The file that readers see is replaced only by a document that was written whole: `publish`
-- renames only after the open, the write, the flush, the close and the chmod have succeeded, has no
-- failure exactly if the rename succeeds too, and removes its own file after every later failure
-- than that of the open.
pub write_file_iff :
    (a : FileAnswers)
    → ((write_file a).rename_called ≡ true
        → (a.opens ≡ true)
          × (a.writes ≡ true)
          × (a.flushes ≡ true)
          × (a.closes ≡ true)
          × (a.chmods ≡ true))
      × (((write_file a).failed_at ≡ none)
          ↔ (((write_file a).rename_called ≡ true) × (a.renames ≡ true)))
      × (((write_file a).unlink_called ≡ true)
          ↔ ((a.opens ≡ true) × ((write_file a).failed_at ≢ none)))
unfolding write_file write_step
write_file_iff a = (ground arith, ground arith, ground arith)

-- A call of `publish` logs a failure exactly if it fails and the call before did not, logs a
-- recovery exactly if it succeeds and the call before failed, and keeps whether it failed.
publish-logged :
    (s : Surroundings) (h : Health)
    → let p : Published = publish s h in
      ((p.logged ≡ some log_failed) ↔ ((p.written.failed_at ≢ none) × (h.publish_failed ≡ false)))
      × ((p.logged ≡ some log_recovered)
          ↔ ((p.written.failed_at ≡ none) × (h.publish_failed ≡ true)))
      × ((p.health.publish_failed ≡ true) ↔ (p.written.failed_at ≢ none))
unfolding publish
publish-logged s h = elim (Option-cases (write_file s.files).failed_at) [
  | inl fine ↦ (ground arith, ground arith, ground arith)
  | inr (at, failed) ↦ (ground arith, ground arith, ground arith)
]

-- While there is no pipeline error, an enabled channel is reported as stalled exactly if its
-- encoder's counter is the one noted last and more than `stall_sec` seconds have gone by since it
-- moved.
observe_channel-stall :
    (h : Health) (t : ℕ) (dir : List ℕ) (fault : Option Code) (q channel : ℕ) (ch : ChannelHealth)
    (flags : Flags)
    → ch.enable ≡ true
    → h.pipeline_error_us ≡ 0
    → ((observe_channel h t dir fault q channel ch flags).first.code ≡ source_stall)
      ↔ ((q ≡ ch.last_q_in) × (ch.q_in_moved_us + h.stall_sec * usec_per_sec < t))
unfolding observe_channel observe_gstreamer note_q_in
observe_channel-stall h t dir fault q channel ch flags on fine = ground arith
