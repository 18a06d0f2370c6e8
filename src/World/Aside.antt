-- ===== src/World/Aside.antt =====
-- Steps that keep to the system's calls: no pipe is opened or closed, nothing is sent to the plugin,
-- and no state behind an `Arc` is touched. The entrypoints of webauthn.dll are reached by such steps.
use kee_pass_key_win.Prelude.{
  ◌≤◌, length, ◌≡◌, ◌∙◌, arith, Exec, ◌>>=◌, return, Result-cases, inl, inr,
}
use kee_pass_key_win.World.State.{Process}
use kee_pass_key_win.World.Transcript.{transcript}
use kee_pass_key_win.World.Counts.{
  lines_sent, IsQuiet, IsSettled, published, IsUncounted, IsUncounted-trans, com_entered,
  uninitialized, revoked,
}

pub record IsBeside (p q : Process) : Type 0 where
  pub quiet : IsQuiet p.history q.history
  pub sent : lines_sent q.history ≡ lines_sent p.history
  pub arcs : q.arcs ≡ p.arcs
  pub shared : q.shared_state ≡ p.shared_state
  pub spoken : transcript q.history ≡ transcript p.history

-- Such a step that does not count as a reference to the server process either, only adds to the
-- calls that were made, and tells the system of no credential.
pub record IsApart (p q : Process) : Type 0 where
  pub quiet : IsQuiet p.history q.history
  pub sent : lines_sent q.history ≡ lines_sent p.history
  pub arcs : q.arcs ≡ p.arcs
  pub shared : q.shared_state ≡ p.shared_state
  pub spoken : transcript q.history ≡ transcript p.history
  pub refs : IsUncounted p.history q.history
  pub longer : length p.history ≤ length q.history
  pub told : published q.history ≡ published p.history

-- A step of the first kind that does not count as a reference either, only adds to the calls that were
-- made, and after which every buffer of user verification is freed, if it was so before.
pub record IsAside (p q : Process) : Type 0 where
  pub quiet : IsQuiet p.history q.history
  pub sent : lines_sent q.history ≡ lines_sent p.history
  pub arcs : q.arcs ≡ p.arcs
  pub shared : q.shared_state ≡ p.shared_state
  pub spoken : transcript q.history ≡ transcript p.history
  pub refs : IsUncounted p.history q.history
  pub longer : length p.history ≤ length q.history
  pub settled : IsSettled p.history q.history

-- Both: a step that tells of no credential and settles the buffers.
pub record IsMute (p q : Process) : Type 0 where
  pub quiet : IsQuiet p.history q.history
  pub sent : lines_sent q.history ≡ lines_sent p.history
  pub arcs : q.arcs ≡ p.arcs
  pub shared : q.shared_state ≡ p.shared_state
  pub spoken : transcript q.history ≡ transcript p.history
  pub refs : IsUncounted p.history q.history
  pub longer : length p.history ≤ length q.history
  pub settled : IsSettled p.history q.history
  pub told : published q.history ≡ published p.history

-- Steps that leave COM as it was.
pub record IsTidy (p q : Process) : Type 0 where
  pub entered : com_entered q.history ≡ com_entered p.history
  pub left : uninitialized q.history ≡ uninitialized p.history
  pub revoked : revoked q.history ≡ revoked p.history

pub IsTidy-trans : {p q r : Process} → IsTidy p q → IsTidy q r → IsTidy p r
IsTidy-trans a b = record {
  entered = b.entered ∙ a.entered;
  left = b.left ∙ a.left;
  revoked = b.revoked ∙ a.revoked;
}

pub IsUncounted-IsTidy : {p q : Process} → IsUncounted p.history q.history → IsTidy p q
IsUncounted-IsTidy u = record { entered = u.entered; left = u.left; revoked = u.revoked }

pub IsAside-IsBeside : {p q : Process} → IsAside p q → IsBeside p q
IsAside-IsBeside a = record {
  quiet = a.quiet;
  sent = a.sent;
  arcs = a.arcs;
  shared = a.shared;
  spoken = a.spoken;
}

pub IsAside-refl : (p : Process) → IsAside p p
IsAside-refl p = ground arith

pub IsApart-trans : {p q r : Process} → IsApart p q → IsApart q r → IsApart p r
IsApart-trans {p} {q} {r} a b = record {
  quiet = record {
    opened = b.quiet.opened ∙ a.quiet.opened;
    closed = b.quiet.closed ∙ a.quiet.closed;
    tried = b.quiet.tried ∙ a.quiet.tried;
    one = λ le o. b.quiet.one (omega (arith, a.quiet.opened, a.quiet.closed)) (a.quiet.one le o);
  };
  sent = b.sent ∙ a.sent;
  arcs = b.arcs ∙ a.arcs;
  shared = b.shared ∙ a.shared;
  spoken = b.spoken ∙ a.spoken;
  refs = IsUncounted-trans a.refs b.refs;
  longer = omega (arith, a.longer, b.longer);
  told = b.told ∙ a.told;
}

pub IsAside-trans : {p q r : Process} → IsAside p q → IsAside q r → IsAside p r
IsAside-trans {p} {q} {r} a b = record {
  quiet = record {
    opened = b.quiet.opened ∙ a.quiet.opened;
    closed = b.quiet.closed ∙ a.quiet.closed;
    tried = b.quiet.tried ∙ a.quiet.tried;
    one = λ le o. b.quiet.one (omega (arith, a.quiet.opened, a.quiet.closed)) (a.quiet.one le o);
  };
  sent = b.sent ∙ a.sent;
  arcs = b.arcs ∙ a.arcs;
  shared = b.shared ∙ a.shared;
  spoken = b.spoken ∙ a.spoken;
  refs = IsUncounted-trans a.refs b.refs;
  longer = omega (arith, a.longer, b.longer);
  settled = λ e. b.settled (a.settled e);
}

pub IsMute-IsApart : {p q : Process} → IsMute p q → IsApart p q
IsMute-IsApart a = record {
  quiet = a.quiet;
  sent = a.sent;
  arcs = a.arcs;
  shared = a.shared;
  spoken = a.spoken;
  refs = a.refs;
  longer = a.longer;
  told = a.told;
}

pub IsMute-IsAside : {p q : Process} → IsMute p q → IsAside p q
IsMute-IsAside a = record {
  quiet = a.quiet;
  sent = a.sent;
  arcs = a.arcs;
  shared = a.shared;
  spoken = a.spoken;
  refs = a.refs;
  longer = a.longer;
  settled = a.settled;
}

pub IsApart-IsMute : {p q : Process} → IsApart p q → IsSettled p.history q.history → IsMute p q
IsApart-IsMute a e = record {
  quiet = a.quiet;
  sent = a.sent;
  arcs = a.arcs;
  shared = a.shared;
  spoken = a.spoken;
  refs = a.refs;
  longer = a.longer;
  settled = e;
  told = a.told;
}

pub IsMute-trans : {p q r : Process} → IsMute p q → IsMute q r → IsMute p r
IsMute-trans a b =
    IsApart-IsMute (IsApart-trans (IsMute-IsApart a) (IsMute-IsApart b))
      (λ e. b.settled (a.settled e))

pub IsMute-refl : (p : Process) → IsMute p p
IsMute-refl p = ground arith

-- A function on the process all of whose runs are such steps.
pub record StaysAside {A E : Type 0} (m : Exec Process E A) : Type 0 where
  pub aside : (p : Process) → IsMute p (m p).1

pub return-StaysAside : {A E : Type 0} (a : A) → StaysAside (return {E = E} a)
return-StaysAside a = record { aside = IsMute-refl }

pub >>=-StaysAside :
    {A B E : Type 0} {m : Exec Process E A} {f : A → Exec Process E B}
    → StaysAside m
    → ((a : A) → StaysAside (f a))
    → StaysAside (m >>= f)
>>=-StaysAside {m = m} {f = f} hm hf = record {
  aside = λ p. elim (Result-cases (m p).0) [
    | inl (a, e) ↦ rw e (IsMute-trans (hm.aside p) ((hf a).aside (m p).1))
    | inr (e, e') ↦ rw e' (hm.aside p)
  ];
}
