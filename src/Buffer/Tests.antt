-- ===== src/Buffer/Tests.antt =====
-- Runs of the buffer, and its theorems at small buffers.
use netxy.Base.{◌≡◌, refl, true, false, some, List, [], ◌∷◌, arith}
use netxy.Buffer.{
  Buffer, new, get_read_valid_count, get_write_valid_count, adjust_to_head, add_write_pos,
  add_read_pos, get_write_ptr, copy_in, write_direct, write,
}
use netxy.Buffer.Bounds.{IsValid, new-IsValid, add_write_pos-IsValid, add_read_pos-IsValid}
use netxy.Buffer.Contents.{contents, contents-add_read_pos}
use netxy.Buffer.Write.{Appended, write-Appended}
use netxy.Buffer.Queue.{Call, put, use_up, queue_step, queue_run, RunsAs, run_refines}

-- Four bytes, of which 7 has been read and 8 and 9 have not.
abbrev sample : Buffer
sample = record { bytes = 7 ∷ 8 ∷ 9 ∷ 0 ∷ []; data_len = 4; write_pos = 3; read_pos = 1 }

abbrev script : List Call
script = put (1 ∷ 2 ∷ []) ∷ put (3 ∷ []) ∷ use_up 3 ∷ use_up 5 ∷ put (4 ∷ []) ∷ []

sample-IsValid : IsValid sample
sample-IsValid = omega arith

write_moves_down :
    write sample (1 ∷ 2 ∷ [])
    ≡ some (true, record { bytes = 8 ∷ 9 ∷ 1 ∷ 2 ∷ []; data_len = 4; write_pos = 4; read_pos = 0 })
unfolding write write_direct copy_in get_write_ptr add_write_pos adjust_to_head get_read_valid_count
    get_write_valid_count
write_moves_down = refl

script_answers :
    queue_run 4 (8 ∷ 9 ∷ []) script ≡ (true ∷ false ∷ true ∷ true ∷ true ∷ [], 2 ∷ 4 ∷ [])
unfolding queue_run queue_step
script_answers = refl

new-IsValid_example :
    IsValid (record { bytes = 5 ∷ []; data_len = 1; write_pos = 0; read_pos = 0 })
    × (get_read_valid_count (record { bytes = 5 ∷ []; data_len = 1; write_pos = 0; read_pos = 0 })
        ≡ 0)
    × (get_write_valid_count (record { bytes = 5 ∷ []; data_len = 1; write_pos = 0; read_pos = 0 })
        ≡ 1)
unfolding new
new-IsValid_example = new-IsValid true (5 ∷ []) 1 refl (omega arith) refl

add_write_pos-IsValid_example :
    IsValid (add_write_pos sample 1) × ((add_write_pos sample 1).write_pos ≡ 4)
unfolding get_write_valid_count
add_write_pos-IsValid_example = add_write_pos-IsValid 1 sample-IsValid (omega arith)

add_read_pos-IsValid_example :
    IsValid (add_read_pos sample 2) × ((add_read_pos sample 2).read_pos ≡ 3)
unfolding get_read_valid_count
add_read_pos-IsValid_example = add_read_pos-IsValid 2 sample-IsValid (omega arith)

contents-add_read_pos_example : contents (add_read_pos sample 1) ≡ 9 ∷ []
unfolding get_read_valid_count
contents-add_read_pos_example = contents-add_read_pos 1 sample-IsValid (omega arith)

write-Appended_example :
    (b' : Buffer) × (write sample (1 ∷ 2 ∷ []) ≡ some (true, b')) × Appended sample (1 ∷ 2 ∷ []) b'
write-Appended_example = write-Appended (1 ∷ 2 ∷ []) sample-IsValid (omega arith)

run_refines_example : RunsAs sample 4 (8 ∷ 9 ∷ []) script
run_refines_example = run_refines script sample-IsValid
