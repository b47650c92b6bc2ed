-- ===== src/Spoa/Server/Ends.antt =====
-- The loop of a connection ends, and its pipeline stays short.
use haproxy_spoa_firehol_mmd.Prelude.{
  ℕ, ◌++◌, zero, suc, ◌+◌, ◌≤◌, ◌<◌, ◌≡◌, refl, ap, Bool, true, false, ◌&&◌, List, [], ◌∷◌, some,
  arith, ltb, if◌then◌else◌,
}
use haproxy_spoa_firehol_mmd.Prelude.Lists.{length, take, drop, length-drop}
use haproxy_spoa_firehol_mmd.Spoa.Agent.{handle_frame}
use haproxy_spoa_firehol_mmd.Spoa.Server.{
  World, Connection, frame_type, push_pipeline, dispatch, process_one_frame, repeat_frames,
  handle_connection,
}

push_pipeline-lt : (c : Connection) → c.pipeline < 128 → (push_pipeline c).pipeline < 128
unfolding push_pipeline
push_pipeline-lt c h = ground arith

-- What a round leaves: the bytes that it did not read, and a short pipeline.
abbrev Leaves : List ℕ → Connection × Bool → Type 0
Leaves rest (c, stop) = (c.input ≡ rest) × (c.pipeline < 128)

dispatch-Leaves :
    (w : World) (type : ℕ) (payload : List ℕ) (c : Connection)
    → c.pipeline < 128
    → Leaves c.input (dispatch w type payload c)
unfolding dispatch
dispatch-Leaves w type payload c h =
    let r = handle_frame w.endian w.log w.snapshot w.stack_buf (frame_type type) payload c.agent in
    go (w.available && (r.0).stop) (record c { output = c.output ++ (r.0).sent; agent = r.1 }) h
  where
    go :
        (stop : Bool) (c : Connection)
        → c.pipeline < 128
        → Leaves c.input (if stop then (c, true) else (push_pipeline c, false))
    go true c h = (refl, h)
    go false c h = (unfold push_pipeline in refl, push_pipeline-lt c h)

-- At most `n` bytes are left, and four fewer if the loop goes on.
abbrev Advances : ℕ → Connection × Bool → Type 0
Advances n (c, stop) = (c.pipeline < 128) × (length c.input + (if stop then 0 else 4) ≤ n)

Advances-if :
    (n : ℕ) (b : Bool) (x y : Connection × Bool)
    → Advances n x
    → (b ≡ false → Advances n y)
    → Advances n (if b then x else y)
Advances-if n true x y hx hy = hx
Advances-if n false x y hx hy = hy refl

Leaves-Advances :
    (n : ℕ) (rest : List ℕ) (r : Connection × Bool)
    → Leaves rest r
    → length rest + 4 ≤ n
    → Advances n r
Leaves-Advances n rest (c, true) (same, short) h = (short, omega (arith, ap length same))
Leaves-Advances n rest (c, false) (same, short) h = (short, omega (arith, ap length same))

frame_case :
    (n : ℕ) (w : World) (frame : List ℕ) (c : Connection)
    → c.pipeline < 128
    → length c.input + 4 ≤ n
    → Advances n (elim frame as (λ _. Connection × Bool) [
      | [] ↦ (c, true)
      | type ∷ payload ↦ dispatch w type payload c
    ])
frame_case n w [] c h le = (h, omega arith)
frame_case n w (type ∷ payload) c h le =
    Leaves-Advances n c.input (dispatch w type payload c) (dispatch-Leaves w type payload c h) le

four_bytes : (xs : List ℕ) → ltb (length (take 4 xs)) 4 ≡ false → 4 ≤ length xs
four_bytes [] h = ground arith
four_bytes (a ∷ []) h = ground arith
four_bytes (a ∷ b ∷ []) h = ground arith
four_bytes (a ∷ b ∷ c ∷ []) h = ground arith
four_bytes (a ∷ b ∷ c ∷ d ∷ xs) h = omega arith

module _ (read_be : List ℕ → ℕ) where
  process_one_frame-Advances :
      (w : World) (c : Connection)
      → c.pipeline < 128
      → Advances (length c.input) (process_one_frame read_be w c)
  unfolding process_one_frame
  process_one_frame-Advances w c h =
      let behind = drop 4 c.input in
      let size = read_be (take 4 c.input) in
      let rest = drop size behind in
      let after = length-drop 4 c.input in
      let later = length-drop size behind in
      Advances-if (length c.input) _ _ _ (h, omega (arith, after))
        (λ enough.
          let four = four_bytes c.input enough in
          Advances-if (length c.input) _ _ _ (h, omega (arith, after, later))
            (λ full.
              frame_case (length c.input) w (take size behind) (record c { input = rest }) h
                (omega (arith, after, later, four))))

  -- A round keeps the pipeline below 128, never gives input back, and takes at least four bytes if it
  -- goes on.
  pub process_one_frame_lem :
      (w : World) (c : Connection)
      → c.pipeline < 128
      → let (c', stop) = process_one_frame read_be w c in
        (c'.pipeline < 128) × (length c'.input + (if stop then 0 else 4) ≤ length c.input)
  process_one_frame_lem w c h = process_one_frame-Advances w c h

  repeat_frames_ends :
      (worlds : ℕ → World) (fuel k : ℕ) (c : Connection)
      → c.pipeline < 128
      → length c.input < fuel
      → (c' : Connection) × (repeat_frames read_be worlds fuel k c ≡ some c')
  unfolding repeat_frames
  repeat_frames_ends worlds zero k c h le = absurd (omega arith)
  repeat_frames_ends worlds (suc fuel) k c h le =
      go fuel (process_one_frame read_be (worlds k) c) (process_one_frame-Advances (worlds k) c h)
        le (repeat_frames_ends worlds fuel (suc k) ((process_one_frame read_be (worlds k) c).0))
    where
      go :
          (fuel : ℕ) (r : Connection × Bool)
          → Advances (length c.input) r
          → length c.input < suc fuel
          → (r.0.pipeline < 128
              → length r.0.input < fuel
              → (c' : Connection) × (repeat_frames read_be worlds fuel (suc k) r.0 ≡ some c'))
          → (c' : Connection) × ((if r.1
                then some r.0
                else repeat_frames read_be worlds fuel (suc k) r.0)
              ≡ some c')
      go fuel (c₁, true) a le next = (c₁, refl)
      go fuel (c₁, false) (short, less) le next = next short (omega arith)

  -- Whatever the peer sends and the environment decides, the loop of a connection with less than 128
  -- futures in its pipeline ends after as many
  -- rounds as there are bytes, at most and one more: the fuel is enough.
  pub handle_connection_ends :
      (worlds : ℕ → World) (c : Connection)
      → c.pipeline < 128
      → (c' : Connection) × (handle_connection read_be worlds c ≡ some c')
  unfolding handle_connection
  handle_connection_ends worlds c h =
      let (c', e) = repeat_frames_ends worlds (length c.input + 1) 0 c h (omega arith) in
      (record c' { pipeline = 0 }, rw (e, handle_connection))
