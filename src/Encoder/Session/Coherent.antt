-- ===== src/Encoder/Session/Coherent.antt =====
-- src/video_encode.rs: a turn of the encode loop keeps its sessions, buffers and flag together.
use meshconf.Prelude.{
  ◌⊎◌, ℕ, ◌+◌, ◌%◌, u64_mod, ◌≡◌, refl, sym, ◌∙◌, ◌⊎◌, if_cases, Bool, true, false, Option, none,
  some, List, [], ◌∷◌, ◌==◌, arith, ◌&&◌, All, inl, inr,
}
use meshconf.Bandwidth.{EncoderConfig}
use meshconf.Encoder.Session.{
  Frame, Conditions, EncodedOutput, EncodeRequest, EncodeLoop, is_stale, recreate, apply_quality,
  apply_bitrate, adapt, pixel_buffer, forward_output, submit, encode, turn, pool_size,
}

-- The first frame of each session but the one that was created before the loop, whose number is 0, is
-- demanded as a keyframe.
abbrev pub IsForcedFirst : List EncodeRequest → Type 0
IsForcedFirst [] = Unit
IsForcedFirst (r ∷ []) = (r.session ≡ 0) ⊎ (r.forced ≡ true)
IsForcedFirst (r ∷ q ∷ rs) = ((r.session ≡ q.session) ⊎ (r.forced ≡ true)) × IsForcedFirst (q ∷ rs)

-- Where the newest request went to an older session, or none was made and the session is not the
-- first, the flag is up.
abbrev IsPending : ℕ → Bool → List EncodeRequest → Type 0
IsPending id flag [] = (id ≡ 0) ⊎ (flag ≡ true)
IsPending id flag (r ∷ rs) = (r.session ≡ id) ⊎ (flag ≡ true)

pub IsPending_up : (id : ℕ) (rs : List EncodeRequest) → IsPending id true rs
IsPending_up id [] = inr refl
IsPending_up id (r ∷ rs) = inr refl

abbrev pub IsFitting : EncodeRequest → Type 0
IsFitting r = r.buffer ≡ r.size

abbrev PoolFits : Option (ℕ × ℕ) → ℕ × ℕ → Type 0
PoolFits none size = Unit
PoolFits (some pool) size = pool ≡ size

abbrev to_list : {A : Type 0} → Option A → List A
to_list none = []
to_list (some a) = a ∷ []

pub record IsCoherent (s : EncodeLoop) : Type 0 where
  pub width : s.ended ≡ false → s.session.width ≡ s.enc_width
  pub height : s.ended ≡ false → s.session.height ≡ s.enc_height
  pub pool : PoolFits s.resize_pool (s.enc_width, s.enc_height)
  pub pending : IsPending s.session_id s.force_keyframe s.requests
  pub forced : IsForcedFirst s.requests
  pub fitting : All IsFitting s.requests

push-IsForcedFirst :
    (r : EncodeRequest) (flag : Bool) (rs : List EncodeRequest)
    → r.forced ≡ flag
    → IsPending r.session flag rs
    → IsForcedFirst rs
    → IsForcedFirst (r ∷ rs)
push-IsForcedFirst r flag [] e (inl first) h = inl first
push-IsForcedFirst r flag [] e (inr up) h = inr (e ∙ up)
push-IsForcedFirst r flag (q ∷ rs) e (inl same) h = (inl (sym same), h)
push-IsForcedFirst r flag (q ∷ rs) e (inr up) h = (inr (e ∙ up), h)

forward_output-IsCoherent :
    (open_ : Bool) (ts : ℕ) (out : Option EncodedOutput) (s : EncodeLoop)
    → IsCoherent s
    → IsCoherent (forward_output open_ ts out s)
unfolding forward_output
forward_output-IsCoherent open_ ts none s v = v
forward_output-IsCoherent open_ ts (some out) s v =
    if_cases IsCoherent open_
      (λ e. record {
        width = v.width;
        height = v.height;
        pool = v.pool;
        pending = v.pending;
        forced = v.forced;
        fitting = v.fitting;
      })
      (λ e. record {
        width = λ a. ground arith;
        height = λ a. ground arith;
        pool = v.pool;
        pending = v.pending;
        forced = v.forced;
        fitting = v.fitting;
      })

submit-IsCoherent :
    (cond : Conditions) (ts : ℕ) (buffer : Option (ℕ × ℕ)) (s : EncodeLoop)
    → s.ended ≡ false
    → All (λ b. b ≡ (s.enc_width, s.enc_height)) (to_list buffer)
    → IsCoherent s
    → IsCoherent (submit cond ts buffer s)
unfolding submit
submit-IsCoherent cond ts none s alive fits v = v
submit-IsCoherent cond ts (some buffer) s alive fits v =
    let r : EncodeRequest = record {
      session = s.session_id;
      buffer = buffer;
      size = (s.session.width, s.session.height);
      forced = s.force_keyframe;
    } in
    let s1 : EncodeLoop = record s { force_keyframe = false; requests = r ∷ s.requests } in
    let w : IsCoherent s1 = record {
      width = v.width;
      height = v.height;
      pool = v.pool;
      pending = inl refl;
      forced = push-IsForcedFirst r s.force_keyframe s.requests refl v.pending v.forced;
      fitting = (ground (arith, v.width alive, v.height alive, fits.0), v.fitting);
    } in
    if_cases IsCoherent cond.encodes
      (λ e. forward_output-IsCoherent cond.receiver_open ts cond.output s1 w) (λ e. w)

pool_size-fits :
    (pool : Option (ℕ × ℕ)) (size : ℕ × ℕ) → PoolFits pool size → pool_size pool size ≡ size
pool_size-fits none size h = refl
pool_size-fits (some pool) size h = h

-- What a pixel buffer is made for.
abbrev IsMadeFor : EncodeLoop → EncodeLoop × Option (ℕ × ℕ) → Type 0
IsMadeFor s (s', buffer) =
    All (λ b. b ≡ (s'.enc_width, s'.enc_height)) (to_list buffer)
    × IsCoherent s'
    × (s'.ended ≡ s.ended)

pixel_buffer-IsMadeFor :
    (cond : Conditions) (f : Frame) (s : EncodeLoop)
    → IsCoherent s
    → IsMadeFor s (pixel_buffer cond f s)
unfolding pixel_buffer
pixel_buffer-IsMadeFor cond f s v =
    let size : ℕ × ℕ = pool_size s.resize_pool (s.enc_width, s.enc_height) in
    let fits : size ≡ (s.enc_width, s.enc_height) = pool_size-fits s.resize_pool _ v.pool in
    let w : IsCoherent (record s { resize_pool = some size }) = record {
      width = v.width;
      height = v.height;
      pool = fits;
      pending = v.pending;
      forced = v.forced;
      fitting = v.fitting;
    } in
    if_cases (IsMadeFor s) (f.width == s.enc_width && (f.height == s.enc_height))
      (λ e. ((ground arith, tt), v, refl))
      (λ e.
        if_cases (IsMadeFor s) cond.scales
          (λ e1. (
            if_cases
                (λ (b : Option (ℕ × ℕ)).
                  All {A = ℕ × ℕ} (λ p. p ≡ (s.enc_width, s.enc_height)) (to_list b))
                cond.fills (λ k. (fits, tt)) (λ k. tt),
            w,
            refl,
          ))
          (λ e1. (tt, v, refl)))

encode-IsCoherent :
    (cond : Conditions) (f : Frame) (s : EncodeLoop)
    → s.ended ≡ false
    → IsCoherent s
    → IsCoherent (encode cond f s)
unfolding encode
encode-IsCoherent cond f s alive v =
    let s1 : EncodeLoop = record s { frame_count = (s.frame_count + 1) % u64_mod } in
    let made : IsMadeFor s1 (pixel_buffer cond f s1) = pixel_buffer-IsMadeFor cond f s1 (record {
      width = v.width;
      height = v.height;
      pool = v.pool;
      pending = v.pending;
      forced = v.forced;
      fitting = v.fitting;
    }) in
    submit-IsCoherent cond f.capture_timestamp_us (pixel_buffer cond f s1).1
      (pixel_buffer cond f s1).0 (made.2 ∙ alive) made.0 made.1

apply_quality-IsCoherent :
    (creates : Bool) (c : EncoderConfig) (s : EncodeLoop)
    → IsCoherent s
    → IsCoherent (apply_quality creates c s)
unfolding apply_quality recreate
apply_quality-IsCoherent creates c s v =
    if_cases IsCoherent (c.quality_changed && is_stale c s)
      (λ e.
        if_cases IsCoherent creates
          (λ e1. record {
            width = λ a. refl;
            height = λ a. refl;
            pool = tt;
            pending = IsPending_up (s.session_id + 1) s.requests;
            forced = v.forced;
            fitting = v.fitting;
          })
          (λ e1. record {
            width = λ a. ground arith;
            height = λ a. ground arith;
            pool = tt;
            pending = v.pending;
            forced = v.forced;
            fitting = v.fitting;
          }))
      (λ e. v)

apply_bitrate-IsCoherent :
    (c : EncoderConfig) (s : EncodeLoop) → IsCoherent s → IsCoherent (apply_bitrate c s)
unfolding apply_bitrate
apply_bitrate-IsCoherent c s v =
    if_cases IsCoherent (c.target_bitrate == s.applied_bitrate) (λ e. v)
      (λ e. record {
        width = v.width;
        height = v.height;
        pool = v.pool;
        pending = v.pending;
        forced = v.forced;
        fitting = v.fitting;
      })

pub turn-IsCoherent :
    (cond : Conditions) (f : Frame) (cancelled : Bool) (c : EncoderConfig) (s : EncodeLoop)
    → IsCoherent s
    → IsCoherent (turn cond f cancelled c s).1
unfolding turn adapt
turn-IsCoherent cond f cancelled c s v =
    let Good : EncoderConfig × EncodeLoop → Type 0 = λ r. IsCoherent r.1 in
    let s1 : EncodeLoop = encode cond f s in
    if_cases Good s.ended (λ e. v)
      (λ e.
        let v1 : IsCoherent s1 = encode-IsCoherent cond f s e v in
        if_cases Good s1.ended (λ e1. v1)
          (λ e1.
            if_cases Good cancelled
              (λ e2. record {
                width = λ a. ground arith;
                height = λ a. ground arith;
                pool = v1.pool;
                pending = v1.pending;
                forced = v1.forced;
                fitting = v1.fitting;
              })
              (λ e2.
                let v2 : IsCoherent (apply_quality cond.creates c s1) =
                  apply_quality-IsCoherent cond.creates c s1 v1 in
                if_cases IsCoherent (apply_quality cond.creates c s1).ended (λ e3. v2)
                  (λ e3. apply_bitrate-IsCoherent c (apply_quality cond.creates c s1) v2))))
