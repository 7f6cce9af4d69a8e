-- ===== src/Fix/FrameDecoder/Bounds.antt =====
-- src/fix/fix_frame_decoder.cpp: the size of the buffer.
use fix4_0_demo.Prelude.{◌≤◌, ◌≡◌, true, ◌++◌, arith, Text, length, length-append, ◌↔◌}
use fix4_0_demo.Fix.Message.{ok}
use fix4_0_demo.Fix.FrameDecoder.{FixFrameDecoder, can_append, append}

abbrev pub IsBounded : FixFrameDecoder → Type 0
IsBounded d = length d.buffer ≤ d.max_buffer_size

-- `append` puts the bytes at the end of the buffer exactly when `can_append` of their number holds.
pub append-can_append :
    (d : FixFrameDecoder) (bytes : Text)
    → (can_append d (length bytes) ≡ true)
      ↔ (append d bytes ≡ ok (record d { buffer = d.buffer ++ bytes }))
unfolding append can_append
append-can_append d bytes = (ground arith, ground arith)

-- If `append` succeeds, the buffer is within its limit and holds the new bytes at its end.
pub append-IsBounded :
    (d d' : FixFrameDecoder) (bytes : Text)
    → append d bytes ≡ ok d'
    → IsBounded d' × (d'.buffer ≡ d.buffer ++ bytes)
unfolding append
append-IsBounded d d' bytes h = ground (arith, length-append d.buffer bytes)
