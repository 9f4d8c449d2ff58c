-- ===== src/HealthProducer/Tests.antt =====
-- The health producer with one channel that records and one that was turned off.
use gst_app.Prelude.{◌≡◌, ◌≢◌, ◌↔◌, true, false, [], ◌∷◌, length, none, codes}
use gst_app.HealthProducer.{ChannelHealth, Health}
use gst_app.HealthProducer.Publish.{FileAnswers, write_file, Surroundings, publish}
use gst_app.HealthProducer.Laws.{Truthful, publish-Truthful}
use gst_app.HealthProducer.Duties.{write_file_iff}

abbrev camera : ChannelHealth
camera = record {
  enable = true;
  last_q_in = 40;
  q_in_moved_us = 1000000;
  fragment_us = 1000000;
  fragment_seen = true;
  disabled_reason = [];
}

abbrev broken : ChannelHealth
broken = record camera { enable = false; disabled_reason = codes "no camera" }

abbrev health : Health
health = record {
  channels = camera ∷ broken ∷ [];
  sequence = 6;
  pipeline_error_us = 0;
  pipeline_error = [];
  stall_sec = 3;
  no_growth_sec = 180;
  publish_failed = false;
}

-- The new document cannot be renamed.
abbrev no_rename : FileAnswers
no_rename = record {
  opens = true;
  writes = true;
  flushes = true;
  closes = true;
  chmods = true;
  renames = false;
}

abbrev later : Surroundings
later = record {
  now_us = 9000000;
  record_dir = codes "/mnt/sd_cam";
  storage = none;
  q_in = λ channel. 40;
  files = no_rename;
}

publish-Truthful_example : Truthful (publish later health).document (length health.channels)
publish-Truthful_example = publish-Truthful later health

write_file_iff_example :
    ((write_file no_rename).rename_called ≡ true
      → (true ≡ true) × (true ≡ true) × (true ≡ true) × (true ≡ true) × (true ≡ true))
    × (((write_file no_rename).failed_at ≡ none)
        ↔ (((write_file no_rename).rename_called ≡ true) × (false ≡ true)))
    × (((write_file no_rename).unlink_called ≡ true)
        ↔ ((true ≡ true) × ((write_file no_rename).failed_at ≢ none)))
write_file_iff_example = write_file_iff no_rename
