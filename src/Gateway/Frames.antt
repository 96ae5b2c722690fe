-- ===== src/Gateway/Frames.antt =====
-- Identity frames: what the dialing side writes, the accepting side reads.
use among_clusters.Prelude.{
  ◌+◌, ◌*◌, ◌/◌, ◌%◌, ◌^◌, ◌≤◌, ◌<◌, ◌≡◌, none, some, ◌++◌, arith, length, length-append,
  take-append,
}
use among_clusters.Text.{Text}
use among_clusters.Text.Splitting.{drop_append}
use among_clusters.Gateway.{write_frame, read_frame}

-- The accepting side reads exactly the identity that the dialing side framed, and leaves the bytes
-- behind it, if the identity has between 1 and 2048 bytes.
pub read_frame-write_frame :
    (identity rest : Text)
    → 1 ≤ length identity
    → length identity ≤ 2048
    → read_frame (write_frame identity ++ rest) ≡ some (identity, rest)
unfolding read_frame write_frame
read_frame-write_frame identity rest h k =
    let size : length identity % 2 ^ 16 / 256 * 256 + length identity % 2 ^ 16 % 256
        ≡ length identity =
      omega arith in
    rw size (
      ground
        (arith, length-append identity rest, take-append identity rest, drop_append identity rest))

-- An identity of 2049 to 65535 bytes is refused, whatever follows it.
pub read_frame_too_long :
    (identity rest : Text)
    → 2048 < length identity
    → length identity < 2 ^ 16
    → read_frame (write_frame identity ++ rest) ≡ none
unfolding read_frame write_frame
read_frame_too_long identity rest h k =
    let size : length identity % 2 ^ 16 / 256 * 256 + length identity % 2 ^ 16 % 256
        ≡ length identity =
      omega arith in
    rw size (ground arith)
