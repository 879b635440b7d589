-- ===== src/Audio/Tests.antt =====
-- Clips of 16384 and of 16386 bytes, of which the controller completes buffers.
use horizon_os.Prelude.{ℕ, ◌<◌, ◌≡◌, ◌⊎◌, refl, some, List, [], ◌∷◌, arith}
use horizon_os.Audio.{Audio, BdlEntry}
use horizon_os.Audio.Finish.{play_and_interrupts, Tiles, Queued, play_and_interrupts-Tiles}
use horizon_os.Audio.Ending.{clip_ends, clip_never_ends}

abbrev silent : Audio
silent = record {
  ring_buffer = λ i. record { buffer_addr_phys = 0; num_samples = 0; flags = 0 };
  last_valid_index = 0;
  bdl_entries_filled = 0;
  audio_cur_pos = 0;
  audio_data_end = 0;
  sent = [];
}

abbrev statuses : List ℕ
statuses = 8 ∷ 8 ∷ 12 ∷ []

play_and_interrupts-Tiles_example :
    (total : ℕ) × (entry : ℕ → BdlEntry) × (a' : Audio) × (play_and_interrupts 4096 24 65536 81922
        statuses silent
      ≡ some a')
    × Tiles 65536 81922 entry
    × Queued 81922 total entry a'
play_and_interrupts-Tiles_example =
    play_and_interrupts-Tiles 4096 24 65536 81922 statuses silent (omega arith) (omega arith)
      (refl, (refl, (refl, tt)))

clip_ends_example :
    (total : ℕ) × (entry : ℕ → BdlEntry) × (a' : Audio) × (play_and_interrupts 4096 24 65536 81920
        statuses silent
      ≡ some a')
    × Tiles 65536 81920 entry
    × Queued 81920 total entry a'
    × (a'.audio_cur_pos ≡ 81920)
clip_ends_example =
    clip_ends 4096 24 65536 81920 statuses silent (omega arith) (omega arith) refl
      (refl, refl, (refl, refl, (refl, refl, tt))) (omega arith)

clip_never_ends_example :
    (a' : Audio) × (play_and_interrupts 4096 24 65536 81922 statuses silent ≡ some a')
    × (a'.audio_cur_pos < 81922)
    × ((90100 < 81922) ⊎ ((a'.ring_buffer a'.last_valid_index).num_samples ≡ 0))
clip_never_ends_example =
    clip_never_ends 4096 24 65536 81922 statuses silent (omega arith) (omega arith)
      (λ e. ground (arith, e)) (refl, refl, (refl, refl, (refl, refl, tt)))
