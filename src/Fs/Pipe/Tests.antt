-- ===== src/Fs/Pipe/Tests.antt =====
-- The theorems on pipes (fs/pipe.c) at a small pipe whose bytes go round the end of the ring.
use mini_os.Prelude.{refl, true, false, [], ◌∷◌, arith, if◌then◌else◌, ◌==◌}
use mini_os.Fs.Pipe.{Pipe, pipe_read, pipe_write}
use mini_os.Fs.Pipe.Queue.{PipeValid, IsRead, IsWrite, pipe_read-IsRead, pipe_write-IsWrite}

abbrev round_the_end : Pipe
round_the_end = record {
  head = 1;
  tail = 1022;
  len = 3;
  readers = 1;
  writers = 1;
  buf = λ i. if i == 1022 then 10 else if i == 1023 then 20 else 30;
}

round_the_end-PipeValid : PipeValid round_the_end
round_the_end-PipeValid = record { tail = omega arith; len = omega arith; head = refl }

pipe_read-IsRead_example : IsRead round_the_end 2 (pipe_read round_the_end true false 2)
pipe_read-IsRead_example = pipe_read-IsRead true false 2 round_the_end-PipeValid

pipe_write-IsWrite_example :
    IsWrite round_the_end (7 ∷ 8 ∷ []) (pipe_write round_the_end true false (7 ∷ 8 ∷ []))
pipe_write-IsWrite_example = pipe_write-IsWrite true false (7 ∷ 8 ∷ []) round_the_end-PipeValid
