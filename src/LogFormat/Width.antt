-- ===== src/LogFormat/Width.antt =====
-- The width of the targets that src/log_format.rs shares between threads.
use blahaj.Prelude.{
  ℕ, zero, suc, ◌-◌, ◌≤◌, ◌<◌, List, [], ◌∷◌, ◌≡◌, refl, ◌∙◌, All, arith, length, replicate,
  length-append,
}
use blahaj.Prelude.Text.{Str}
use blahaj.LogFormat.{
  Call, loading, comparing, returned, access, Threads, step, run, pad, len, len_utf8,
  max_target_width,
}

length-replicate : (n c : ℕ) → length (replicate n c) ≡ n
length-replicate zero c = refl
length-replicate (suc n) c = omega (arith, length-replicate n c)

length-le-len : (s : Str) → length s ≤ len s
unfolding len len_utf8
length-le-len [] = omega arith
length-le-len (c ∷ s) = ground (arith, length-le-len s)

length-pad : (s : Str) (width : ℕ) → length s ≤ width → length (pad s width) ≡ width
unfolding pad
length-pad s width le =
    length-append s (replicate (width - length s) b' ')
    ∙ omega (arith, length-replicate (width - length s) b' ')

-- A target that is padded to the width that its uninterrupted call returns has as many characters
-- as that width, which is the one that is stored then, and is neither below its length in bytes
-- nor below the width stored before.
pub pad-max_target_width :
    (stored : ℕ) (target : Str)
    → let result = max_target_width stored (len target) in
      (length (pad target result.1) ≡ result.1)
      × (result.0 ≡ result.1)
      × (stored ≤ result.0)
      × (len target ≤ result.0)
unfolding max_target_width
pad-max_target_width stored target =
    let fits : length target ≤ (max_target_width stored (len target)).1 =
      ground (arith, length-le-len target) in
    (length-pad target _ fits, ground arith, ground arith, ground arith)

-- A call does not return less than the length of its target.
abbrev pub Fits : Call → Type 0
Fits (returned len width) = len ≤ width
Fits _ = Unit

access-Fits : (stored : ℕ) (call : Call) → Fits call → Fits (access stored call).1
unfolding access
access-Fits stored (loading len) h = tt
access-Fits stored (comparing len max_width) h = ground arith
access-Fits stored (returned len width) h = h

step-Fits :
    (place stored : ℕ) (calls : List Call)
    → All Fits calls
    → All Fits (step place stored calls).calls
unfolding step
step-Fits place stored [] h = tt
step-Fits zero stored (call ∷ calls) (h, hs) = (access-Fits stored call h, hs)
step-Fits (suc place) stored (call ∷ calls) (h, hs) = (h, step-Fits place stored calls hs)

-- Whatever the threads' order, no call returns a width below the length of its target.
run-Fits :
    (schedule : List ℕ) (threads : Threads)
    → All Fits threads.calls
    → All Fits (run schedule threads).calls
unfolding run
run-Fits [] threads h = h
run-Fits (place ∷ schedule) threads h =
    run-Fits schedule (step place threads.stored threads.calls)
      (step-Fits place threads.stored threads.calls h)

-- Two calls that both read the width before either stores one: where both targets are longer than
-- it, and the call with the shorter one stores last, the shorter length is kept.
pub run-lost :
    (stored longer shorter : ℕ)
    → stored < shorter
    → shorter < longer
    → let threads =
        run
          (0 ∷ 1 ∷ 0 ∷ 1 ∷ [])
          (record { stored = stored; calls = loading longer ∷ loading shorter ∷ [] }) in
      (threads.stored ≡ shorter) × (threads.stored < longer)
unfolding run step access
run-lost stored longer shorter less more = ground arith
