-- ===== src/Protocol/Subgroup.antt =====
-- src/protocol.rs, "MoQ SUBGROUP_HEADER framing".
use meshconf.Prelude.{
  ℕ, ◌%◌, ◌^◌, ◌≡◌, List, [], ◌∷◌, ◌++◌, ◌==◌, if◌then◌else◌, Result, ok, err, ◌>>=◌,
  bad_stream_type, IsU64, arith,
}
use meshconf.Protocol.Stream.{Reader, feed, read_u8}
use meshconf.Protocol.Varint.{write_varint, varint_bytes, read_varint}
use meshconf.Protocol.Varint.RoundTrip.{read_varint-written}
use mathlib.Core.List.{append_assoc}

abbrev pub stream_type_subgroup : ℕ
stream_type_subgroup = 0x4

abbrev pub track_audio : ℕ
track_audio = 0

abbrev pub track_video : ℕ
track_video = 1

pub record SubgroupHeader : Type 0 where
  pub track_alias : ℕ
  pub group_id : ℕ
  pub subgroup_id : ℕ
  pub publisher_priority : ℕ

pub write_subgroup_header : List ℕ → ℕ → ℕ → ℕ → ℕ → List ℕ
unfolding write_varint
write_subgroup_header w track_alias group_id subgroup_id publisher_priority =
    let w1 = write_varint w stream_type_subgroup in
    let w2 = write_varint w1 track_alias in
    let w3 = write_varint w2 group_id in
    let w4 = write_varint w3 subgroup_id in w4 ++ (publisher_priority ∷ [])

pub read_subgroup_header : Reader → Result (SubgroupHeader × Reader)
unfolding read_u8
read_subgroup_header r0 = do
  (stream_type, r1) ← read_varint r0
  if stream_type == stream_type_subgroup
      then (do
        (track_alias, r2) ← read_varint r1
        (group_id, r3) ← read_varint r2
        (subgroup_id, r4) ← read_varint r3
        (prio, r5) ← read_u8 r4
        ok (
          record {
            track_alias = track_alias;
            group_id = group_id;
            subgroup_id = subgroup_id;
            publisher_priority = prio;
          },
          r5,
        ))
      else err bad_stream_type

write_subgroup_header_lem :
    (track group subgroup prio : ℕ) (w : List ℕ)
    → write_subgroup_header w track group subgroup prio
      ≡ w
        ++ (varint_bytes stream_type_subgroup
            ++ (varint_bytes track
                ++ (varint_bytes group ++ (varint_bytes subgroup ++ (prio ∷ [])))))
unfolding write_subgroup_header
write_subgroup_header_lem track group subgroup prio w = simp append_assoc

-- Reading a written header gives its fields back, each cut to the 62 bits of a varint, and leaves
-- the reader behind it.
pub read_subgroup_header-write :
    (track group subgroup prio : ℕ) (r : Reader)
    → IsU64 track
    → IsU64 group
    → IsU64 subgroup
    → read_subgroup_header (feed (write_subgroup_header [] track group subgroup prio) r)
      ≡ ok (
        record {
          track_alias = track % 2 ^ 62;
          group_id = group % 2 ^ 62;
          subgroup_id = subgroup % 2 ^ 62;
          publisher_priority = prio;
        },
        r,
      )
unfolding read_subgroup_header read_u8
read_subgroup_header-write track group subgroup prio r ht hg hs =
    let s4 = prio ∷ [] in
    let s3 = varint_bytes subgroup ++ s4 in
    let s2 = varint_bytes group ++ s3 in
    let s1 = varint_bytes track ++ s2 in
    rw (
      write_subgroup_header_lem track group subgroup prio [],
      read_varint-written stream_type_subgroup s1 r (omega arith),
      read_varint-written track s2 r ht,
      read_varint-written group s3 r hg,
      read_varint-written subgroup s4 r hs,
    )
