-- ===== src/World/Counts.antt =====
-- Numbers read off the calls that a process has made.
use kee_pass_key_win.Prelude.{
  ℕ, ◌+◌, ◌≤◌, ◌==◌, if◌then◌else◌, ◌≡◌, ◌∙◌, Bool, true, false, List, [], ◌∷◌, count_if,
}
use kee_pass_key_win.World.Events.{Event, pipe_opened, pipe_refused, pipe_closed, slept, flushed}
use kee_pass_key_win.World.Events.{
  uv1_called, uv2_called, uv_freed, server_add_ref, server_release, com_initialized,
  com_uninitialized, class_revoked,
}
use kee_pass_key_win.World.Events.{CredentialDetails, credentials_added}
use kee_pass_key_win.World.Outside.{History}

abbrev is_attempt : Event → Bool
is_attempt (pipe_opened s h) = true
is_attempt (pipe_refused s) = true
is_attempt _ = false

-- Attempts to open the plugin's pipe.
abbrev pub attempts : History → ℕ
attempts = count_if is_attempt

abbrev is_opened : Event → Bool
is_opened (pipe_opened s h) = true
is_opened _ = false

abbrev pub pipes_opened : History → ℕ
pipes_opened = count_if is_opened

abbrev is_closed : Event → Bool
is_closed (pipe_closed h) = true
is_closed _ = false

abbrev pub pipes_closed : History → ℕ
pipes_closed = count_if is_closed

-- Milliseconds slept.
abbrev pub slept_ms : History → ℕ
slept_ms [] = 0
slept_ms (slept d ∷ h) = d + slept_ms h
slept_ms (_ ∷ h) = slept_ms h

abbrev is_flush : Event → Bool
is_flush (flushed h) = true
is_flush _ = false

-- Lines sent to a pipe.
abbrev pub lines_sent : History → ℕ
lines_sent = count_if is_flush

abbrev is_server_release : Event → Bool
is_server_release server_release = true
is_server_release _ = false

-- How often CoReleaseServerProcess was called, and CoAddRefServerProcess.
abbrev pub server_releases : History → ℕ
server_releases = count_if is_server_release

abbrev is_server_add_ref : Event → Bool
is_server_add_ref server_add_ref = true
is_server_add_ref _ = false

abbrev pub server_add_refs : History → ℕ
server_add_refs = count_if is_server_add_ref

abbrev is_initialized : Event → Bool
is_initialized com_initialized = true
is_initialized _ = false

abbrev is_revoked : Event → Bool
is_revoked (class_revoked cookie) = true
is_revoked _ = false

abbrev is_uninitialized : Event → Bool
is_uninitialized com_uninitialized = true
is_uninitialized _ = false

-- How often COM was entered and left, and a class revoked.
abbrev pub com_entered : History → ℕ
com_entered = count_if is_initialized

abbrev pub revoked : History → ℕ
revoked = count_if is_revoked

abbrev pub uninitialized : History → ℕ
uninitialized = count_if is_uninitialized

-- Between `h` and `k` no reference to the server process was taken or given back, COM was neither
-- entered nor left, and no class was revoked.
pub record IsUncounted (h k : History) : Type 0 where
  pub added : server_add_refs k ≡ server_add_refs h
  pub released : server_releases k ≡ server_releases h
  pub entered : com_entered k ≡ com_entered h
  pub left : uninitialized k ≡ uninitialized h
  pub revoked : revoked k ≡ revoked h

pub IsUncounted-trans : {h k l : History} → IsUncounted h k → IsUncounted k l → IsUncounted h l
IsUncounted-trans a b = record {
  added = b.added ∙ a.added;
  released = b.released ∙ a.released;
  entered = b.entered ∙ a.entered;
  left = b.left ∙ a.left;
  revoked = b.revoked ∙ a.revoked;
}

-- The credentials that the system was told of, newest first.
abbrev pub published : History → List CredentialDetails
published [] = []
published (credentials_added d ∷ h) = d ∷ published h
published (_ ∷ h) = published h

-- A pointer that is not null, before the others.
abbrev with_pointer : ℕ → List ℕ → List ℕ
with_pointer ptr ps = if ptr == 0 then ps else ptr ∷ ps

-- The buffers that user verification handed out, and those of them that were freed, newest first.
abbrev pub buffers_out : History → List ℕ
buffers_out [] = []
buffers_out (uv1_called r hr o ∷ h) = with_pointer o.ptr (buffers_out h)
buffers_out (uv2_called r hr o ∷ h) = with_pointer o.ptr (buffers_out h)
buffers_out (_ ∷ h) = buffers_out h

abbrev pub buffers_freed : History → List ℕ
buffers_freed [] = []
buffers_freed (uv_freed ptr ∷ h) = ptr ∷ buffers_freed h
buffers_freed (_ ∷ h) = buffers_freed h

-- If all of them were freed at `h`, they are at `k`.
abbrev pub IsSettled : History → History → Type 0
IsSettled h k = buffers_out h ≡ buffers_freed h → buffers_out k ≡ buffers_freed k

-- At no time were two pipes open: after each call, at most one more was opened than closed.
abbrev pub OnePipe : History → Type 0
OnePipe [] = Unit
OnePipe (e ∷ h) = (pipes_opened (e ∷ h) ≤ pipes_closed (e ∷ h) + 1) × OnePipe h

-- What was called between `h` and `k` opened and closed no pipe.
pub record IsQuiet (h k : History) : Type 0 where
  pub opened : pipes_opened k ≡ pipes_opened h
  pub closed : pipes_closed k ≡ pipes_closed h
  pub tried : attempts k ≡ attempts h
  pub one : pipes_opened h ≤ pipes_closed h + 1 → OnePipe h → OnePipe k
