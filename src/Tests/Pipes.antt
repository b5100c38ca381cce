-- ===== src/Tests/Pipes.antt =====
-- Kernel/IPC.c at a pipe whose bytes go over the end of the ring, and at one without bytes.
use gat_os_v.Base.{◌+◌, ◌≡◌, arith, refl, [], ◌∷◌, pos}
use gat_os_v.Pipe.{Pipe, read, read_loop, next}
use gat_os_v.Pipe.Contents.{IsPipe, size, stretch, contents}

-- The bytes 108, 109, 100 wait at 8, 9 and 0.
abbrev over_end : Pipe
over_end = record { position = 8; end = 1; read_flag = 0; pipe = λ i. 100 + i }

abbrev vacant : Pipe
vacant = record { position = 4; end = 4; read_flag = 0; pipe = λ i. 0 }

over_end-IsPipe : IsPipe over_end
over_end-IsPipe = record { position_in = omega arith; end_in = omega arith; flag = omega arith }

vacant-IsPipe : IsPipe vacant
vacant-IsPipe = record { position_in = omega arith; end_in = omega arith; flag = omega arith }

vacant-size : size vacant ≡ 0
unfolding size
vacant-size = refl

contents-over_end : contents over_end ≡ 108 ∷ 109 ∷ 100 ∷ []
unfolding size stretch
contents-over_end = refl

read_two : (read (pos 2) over_end).0 ≡ 108 ∷ 109 ∷ []
unfolding read read_loop next
read_two = refl
