-- ===== src/HttpServer/Tests.antt =====
-- Two messages in three chunks, and a message in fragments.
use netxy.Base.{ℕ, ◌≡◌, refl, none, some, List, [], ◌∷◌, arith, replicate}
use netxy.WebSocket.{Rand, build, length_bytes, xor_mask}
use netxy.HttpServer.{Session, data_callback, feed, feed_limited, max_recv_size}
use netxy.HttpServer.Chunks.{left_over, concat, feed-concat}
use netxy.HttpServer.Messages.{Message, frames, told}
use netxy.HttpServer.Limit.{feed_limited-frames}

abbrev mask : Rand
mask = record { r0 = 0x137; r1 = 0xfa; r2 = 0x21; r3 = 0x3d }

abbrev two_messages : List Message
two_messages =
    record { payload = 72 ∷ 105 ∷ []; opcode = 1; masking = some mask }
    ∷ record { payload = 9 ∷ []; opcode = 2; masking = none }
    ∷ []

abbrev three_chunks : List (List ℕ)
three_chunks =
    (0x81 ∷ 0x82 ∷ 0x37 ∷ []) ∷ (0xfa ∷ 0x21 ∷ 0x3d ∷ 0x7f ∷ 0x93 ∷ 0x82 ∷ []) ∷ (1 ∷ 9 ∷ []) ∷ []

cut : concat three_chunks ≡ frames two_messages
unfolding build length_bytes xor_mask
cut = refl

abbrev fresh : Session
fresh = record { cache_frame = []; calls = [] }

feed-concat_example :
    feed three_chunks [] fresh
    ≡ left_over (concat three_chunks) (data_callback (concat three_chunks) fresh)
feed-concat_example = feed-concat three_chunks fresh (omega arith)

-- one byte, then up to seven, and the rest byte by byte
abbrev some_reads : List ℕ
some_reads = 0 ∷ 6 ∷ replicate 9 0

feed_limited-frames_example :
    feed_limited max_recv_size some_reads (frames two_messages) [] fresh
    ≡ some ([], [], record { cache_frame = []; calls = told two_messages })
unfolding build length_bytes xor_mask
feed_limited-frames_example =
    feed_limited-frames max_recv_size two_messages some_reads (omega arith) (omega arith)
      (omega arith)
