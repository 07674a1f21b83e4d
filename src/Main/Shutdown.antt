-- ===== src/Main/Shutdown.antt =====
-- When the server of src/main.rs stops: the task that awaits `Join`, with src/supervisor/mod.rs and
-- the caretakers.
use mathlib.Core.List.{Memᴰ}
use blahaj.Prelude.{ℕ, List, ◌≡◌, refl, true, Option, ok, ◌↔◌, All, arith}
use blahaj.Prelude.Text.{Str}
use blahaj.Config.{Program}
use blahaj.Proxy.{Scheme}
use blahaj.Supervisor.Futs.{Poll, ready, pending}
use blahaj.Supervisor.Caretaker.{Command}
use blahaj.Supervisor.Caretaker.Run.{Receiver, Spawned}
use blahaj.Supervisor.Fleet.{Polling, join_answer}
use blahaj.Supervisor.Fleet.World.{Member, World, Happening, wait_reply, happen_all, Reach}
use blahaj.Supervisor.Fleet.Shutdown.{
  IsOver, IsAlive, IsTaken, handled-IsTaken, joined_last, joined_at_end,
}
use blahaj.Supervisor.Fleet.Sent.{Reach-happen_all}
use blahaj.Supervisor.Fleet.Gone.{IsGone, joined_early}
use blahaj.Supervisor.Fleet.Alive.{
  IsSteady, IsCalm, happen_all-IsSteady, steady-IsAlive, steady-IsTaken,
}
use blahaj.Supervisor.Fleet.Stopping.{IsAble}
use blahaj.Supervisor.Fleet.Progress.{Doings, happenings, IsFair, fair_ends}
use blahaj.Main.{answer_of, stop_task}

stop_task-ready :
    (Error : Type 0) (answer : Poll (Unit {0}))
    → stop_task (answer_of {Error = Error} answer) ≡ ok true
    → answer ≡ ready tt
unfolding stop_task
stop_task-ready Error (ready done) e = refl
stop_task-ready Error pending e = ground (arith, e)

ready-stop_task :
    (Error : Type 0) (answer : Poll (Unit {0}))
    → answer ≡ ready tt
    → stop_task (answer_of {Error = Error} answer) ≡ ok true
unfolding stop_task
ready-stop_task Error answer e = ground (arith, e)

module _ (build_uri : Scheme → Str → Str → Option Str) (spawn : Command → Spawned)
    (signal_name : ℕ → Option Str) (stop_rx : Str → Receiver) (programs : List (Str × Program))
    {Error : Type 0} (closed : Error) (polling : Polling Error) where
  -- Whether the server is told to stop in a world.
  abbrev IsEnding : World → Type 0
  IsEnding w =
      stop_task (answer_of {Error = Error} (join_answer polling (wait_reply closed) w.supervisor))
      ≡ ok true

  -- While no caretaker has panicked, the server is told to stop only once every daemon is done: in
  -- whatever order the caretakers, their messages and a `TerminateAll` come.
  pub stops_last :
      (w : World)
      → Reach build_uri spawn signal_name stop_rx programs w
      → All (λ a. IsAlive a.1) w.supervisor.actors
      → IsEnding w
      → All (λ a. IsOver a.1) w.supervisor.actors
  stops_last w reach alive stops =
      joined_last build_uri spawn signal_name stop_rx programs closed polling w reach alive
        (stop_task-ready Error _ stops)

  -- Once every daemon is done and every caretaker has handled its `Wait`, the server is told to stop.
  stops_at_end :
      (w : World)
      → Reach build_uri spawn signal_name stop_rx programs w
      → All (λ a. IsTaken a.1) w.supervisor.actors
      → All (λ a. IsOver a.1) w.supervisor.actors
      → IsEnding w
  stops_at_end w reach taken done =
      ready-stop_task Error _ (
        joined_at_end build_uri spawn signal_name stop_rx programs closed polling w reach taken
          done)

  -- If a caretaker has panicked before it handled its `Wait` (or before that was sent): whatever
  -- happens later, the server is told to stop as soon as `Join` is handled, whatever the other
  -- caretakers do, whose programs may still be running.
  pub stops_early :
      (w : World) (name : Str) (m : Member) (later : List Happening)
      → Reach build_uri spawn signal_name stop_rx programs w
      → Memᴰ (name, m) w.supervisor.actors
      → IsGone m
      → (happen_all build_uri spawn signal_name later w).joined ≡ true
      → IsEnding (happen_all build_uri spawn signal_name later w)
  stops_early w name m later reach r gone joined = ready-stop_task Error _ (
      joined_early build_uri spawn signal_name stop_rx programs closed polling w name m later reach
        r gone joined)

  -- Once `Join` was handled, and each caretaker lives and has handled its `Wait`: whatever happens
  -- later, in whatever order, the server is told to stop exactly when every daemon is done. This is
  -- where the Uris of the health checks can be built, the clock reads no time below a bound that no
  -- program's window exceeds, and a child ends with a status word.
  pub stops_exactly :
      (early : ℕ) (w : World) (later : List Happening)
      → Reach build_uri spawn signal_name stop_rx programs w
      → w.joined ≡ true
      → All (λ a. IsSteady build_uri spawn signal_name early a.1) w.supervisor.actors
      → All (IsCalm early) later
      → IsEnding (happen_all build_uri spawn signal_name later w)
        ↔ All (λ a. IsOver a.1) (happen_all build_uri spawn signal_name later w).supervisor.actors
  stops_exactly early w later reach joined steady calm =
      let there = Reach-happen_all build_uri spawn signal_name stop_rx programs later w reach in
      let still =
        happen_all-IsSteady build_uri spawn signal_name early stop_rx programs w later reach joined
          steady calm in
      (
        stops_last _ there (steady-IsAlive build_uri spawn signal_name early _ still),
        stops_at_end _ there (steady-IsTaken build_uri spawn signal_name early _ still),
      )

  -- After a `Terminate` the server is told to stop: once `Join` and `TerminateAll` were handled, and
  -- each caretaker lives and has a program that can be spawned and whose health check has a Uri, the
  -- server is told to stop after any doings of the caretakers, however mixed, in which each
  -- caretaker first handles the messages in its mailbox, and then has the ten events by which its
  -- work goes on, in their order. The clock reads no time below a program's window, and a child ends
  -- with a status word.
  pub fair_stops :
      (w : World) (doings : Doings)
      → Reach build_uri spawn signal_name stop_rx programs w
      → w.joined ≡ true
      → w.terminated ≡ true
      → All (λ a. IsAble build_uri spawn signal_name a.1) w.supervisor.actors
      → IsFair doings w.supervisor.actors
      → IsEnding (happen_all build_uri spawn signal_name (happenings doings) w)
  fair_stops w doings reach joined terminated able fair =
      let ends =
        fair_ends build_uri spawn signal_name stop_rx programs w doings reach joined terminated able
          fair in
      stops_at_end _
        (Reach-happen_all build_uri spawn signal_name stop_rx programs (happenings doings) w reach)
        (handled-IsTaken _ ends.1) ends.0
