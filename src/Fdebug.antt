-- ===== src/Fdebug.antt =====
-- utils/fdebug/src/main.c: the console that prints what the device and the host say. Two threads share the standard
-- output and a mutex. An action of a thread is at most one access to what is shared; a run is a list of actions in the
-- order in which the threads take them, so that every interleaving is a run. The set up of the bus, of the server and of
-- the threads is left out.
pub mod Blocks
pub mod Bytes
pub mod Moves
pub mod Release
mod Runs
use flipper.Prelude.{
  ℕ, List, [], ◌∷◌, ◌++◌, Option, none, some, Bool, true, false, if◌then◌else◌, length, ◌==◌,
}

pub data Thread : Type 0 where
  usb network : Thread

-- What a reading call brings: nothing, as the code tests it, or bytes to print.
pub data Event : Type 0 where
  quiet : Event
  bytes : List ℕ → Event

-- `e == LIBUSB_ERROR_TIMEOUT || read == 0`, of libusb_interrupt_transfer. With that error the bytes that have come are not
-- looked at. `read` is none where the call fails and does not set it; then `while (read--)` starts from what the last
-- turn left there, -1, and reads behind the buffer: no event of a run stands for that.
abbrev pub usb_event : (timed_out : Bool) → (read : Option (List ℕ)) → Option Event
usb_event true read = some quiet
usb_event false none = none
usb_event false (some read) = some (if length read == 0 then quiet else bytes read)

-- `read < 0 || read == 0`, of recv; none is a negative number
abbrev pub network_event : (read : Option (List ℕ)) → Event
network_event none = quiet
network_event (some read) = if length read == 0 then quiet else bytes read

-- The place of a thread in its loop: before the call that reads; behind it; between pthread_mutex_lock and the title; at
-- the test of what was read; in the loop that prints the bytes.
pub data Place : Type 0 where
  reading : Place
  received : Event → Place
  titling : Event → Place
  testing : Event → Place
  printing : List ℕ → Place

pub record Local : Type 0 where
  pub timeout : ℕ
  pub place : Place

-- "--- DEVICE ---" or "--- HOST ---", or a byte
pub data Print : Type 0 where
  title : Thread → Print
  char : Thread → ℕ → Print

-- the mutex with the thread that has locked it, what each thread has of its own, and what is printed
pub record Console : Type 0 where
  pub lock : Option Thread
  pub on_usb : Local
  pub on_network : Local
  pub out : List Print

pub record Moved : Type 0 where
  pub lock : Option Thread
  pub local : Local
  pub out : List Print

-- pthread_mutex_lock: a thread that finds the mutex locked stays where it is.
abbrev pub acquire : Thread → Event → Option Thread → Local → Moved
acquire me e none l = record { lock = some me; local = record l { place = titling e }; out = [] }
acquire me e (some t) l = record { lock = some t; local = l; out = [] }

-- An action of usb_debug_thread or network_debug_thread; `e` is what its call brings, if it is at it.
unfoldable pub move : (me : Thread) → (e : Event) → Option Thread → Local → Moved
move me e lock l = elim l.place [
  | reading ↦ record { lock = lock; local = record l { place = received e }; out = [] }
  | received r ↦
      if l.timeout == 0
      then acquire me r lock l
      else record { lock = lock; local = record l { place = testing r }; out = [] }
  | titling r ↦ record { lock = lock; local = record l { place = testing r }; out = title me ∷ [] }
  | testing quiet ↦ record {
    lock = none;
    local = record { timeout = 0; place = reading };
    out = [];
  }
  | testing (bytes bs) ↦ record {
    lock = lock;
    local = record { timeout = 5; place = printing bs };
    out = [];
  }
  | printing [] ↦ record { lock = lock; local = record l { place = reading }; out = [] }
  | printing (b ∷ bs) ↦ record {
    lock = lock;
    local = record l { place = printing bs };
    out = char me b ∷ [];
  }
]

unfoldable pub act : Thread → Event → Console → Console
unfolding move
act usb e c =
    let m : Moved = move usb e c.lock c.on_usb in
    record c { lock = m.lock; on_usb = m.local; out = c.out ++ m.out }
act network e c =
    let m : Moved = move network e c.lock c.on_network in
    record c { lock = m.lock; on_network = m.local; out = c.out ++ m.out }

unfoldable pub run : List (Thread × Event) → Console → Console
unfolding act
run [] c = c
run ((t, e) ∷ actions) c = run actions (act t e c)

abbrev pub idle : Local
idle = record { timeout = 0; place = reading }

-- where main starts the threads
abbrev pub started : Console
started = record { lock = none; on_usb = idle; on_network = idle; out = [] }
