-- ===== src/Files/Closing/Closed.antt =====
-- Every descriptor that the child would inherit is closed.
use sio2jail.Common.{
  ℕ, zero, suc, ◌≡◌, ◌⊎◌, refl, sym, ap, subst, ◌∙◌, Bool, true, false, ◌==◌, ◌&&◌, if◌then◌else◌,
  Text, List, [], codes, ◌∷◌, ◌++◌, In, inl, inr, Option-cases, some, arith, Bool-cases,
}
use sio2jail.System.{
  Kernel, World, M, Outcome, ◌>>=◌, ◌>>◌, Syscall, Reply, done, contains, close, pure, opendir,
  open_file, with_errno_check, with_errno_check_, eintr, ebadf,
}
use sio2jail.System.Checks.{with_errno_check-done, >>=-eq-done}
use sio2jail.Files.Closing.{
  FilesListener, o_wronly, stoi, stays_open, gather, close_all, redirect_stderr, on_pre_fork,
  on_post_fork_child,
}

-- A call of close for the descriptor that the kernel answered with a success or with EBADF.
abbrev pub Closes : Kernel → List Syscall → ℕ → Syscall → Type 0
Closes k h fd c = (c ≡ close fd) × (((k.reply h c).failed ≡ false) ⊎ ((k.reply h c).errno ≡ ebadf))

-- The calls, the latest first, hold one that closes the descriptor.
abbrev pub Closed : Kernel → ℕ → List Syscall → Type 0
Closed k fd [] = ⊥
Closed k fd (c ∷ h) = Closes k h fd c ⊎ Closed k fd h

gather-In :
    (is_logger_fd : ℕ → Bool) (name : Text) (names : List Text) (fd : ℕ)
    → In name names
    → stoi name ≡ some fd
    → stays_open is_logger_fd fd ≡ false
    → In fd (gather is_logger_fd names)
unfolding gather
gather-In l name [] fd i e h = absurd i
gather-In l name (first ∷ names) fd (inl same) e h =
    let e' : stoi first ≡ some fd = ap stoi same ∙ e in rw (e', h, gather) (inl refl)
gather-In l name (first ∷ names) fd (inr i) e h = elim (Option-cases (stoi first)) [
  | inl n ↦ rw (n, gather) (gather-In l name names fd i e h)
  | inr (found, n) ↦ elim (Bool-cases (stays_open l found)) [
    | inl kept ↦ rw (n, kept, gather) (gather-In l name names fd i e h)
    | inr not_kept ↦ rw (n, not_kept, gather) (inr (gather-In l name names fd i e h))
  ]
]

after_close : ℕ → ℕ → List ℕ → Reply → M Bool
after_close fuel fd fds r = close_all fuel (if r.failed && r.errno == eintr then fd ∷ fds else fds)

-- One round of the loop.
close_all_round :
    (fuel fd : ℕ) (fds : List ℕ) (k : Kernel) (w w' : World) (b : Bool)
    → close_all (suc fuel) (fd ∷ fds) k w ≡ done (b, w')
    → (after_close fuel fd fds
          (k.reply w.history (close fd))
          k
          (record w { history = close fd ∷ w.history })
        ≡ done (b, w'))
      × (((k.reply w.history (close fd)).failed ≡ false)
          ⊎ (contains (k.reply w.history (close fd)).errno (eintr ∷ ebadf ∷ []) ≡ true))
unfolding close_all after_close
close_all_round fuel fd fds k w w' b h =
    let (r, v, e, rest) =
      >>=-eq-done (with_errno_check (eintr ∷ ebadf ∷ []) (close fd)) (after_close fuel fd fds) h in
    let (reply, world, fine) = with_errno_check-done (eintr ∷ ebadf ∷ []) (close fd) k w v r e in
    let here : after_close fuel fd fds r k (record w { history = close fd ∷ w.history })
        ≡ done (b, w') =
      subst (λ u. after_close fuel fd fds r k u ≡ done (b, w')) (sym world) rest in
    (
      subst
          (λ q.
            after_close fuel fd fds q k (record w { history = close fd ∷ w.history })
            ≡ done (b, w'))
          (sym reply) here,
      fine,
    )

-- After a call of close that is not to be repeated, the descriptor is closed.
closes :
    (fd : ℕ) (k : Kernel) (h : List Syscall)
    → ((k.reply h (close fd)).failed && (k.reply h (close fd)).errno == eintr) ≡ false
    → ((k.reply h (close fd)).failed ≡ false)
      ⊎ (contains (k.reply h (close fd)).errno (eintr ∷ ebadf ∷ []) ≡ true)
    → Closes k h fd (close fd)
unfolding contains
closes fd k h n f = (refl, ground arith)

same_world :
    (a b : Bool) (w w' : World)
    → ◌≡◌ {A = Outcome (Bool × World)} (done (a, w)) (done (b, w'))
    → w ≡ w'
same_world a b w w' h = cc

-- What was closed stays so in the list of calls.
close_all_keeps :
    (fuel : ℕ) (fds : List ℕ) (fd : ℕ) (k : Kernel) (w w' : World) (b : Bool)
    → close_all fuel fds k w ≡ done (b, w')
    → Closed k fd w.history
    → Closed k fd w'.history
unfolding close_all after_close
close_all_keeps zero fds fd k w w' b h c =
    subst (λ v. Closed k fd v.history) (same_world false b w w' h) c
close_all_keeps (suc fuel) [] fd k w w' b h c =
    subst (λ v. Closed k fd v.history) (same_world true b w w' h) c
close_all_keeps (suc fuel) (first ∷ fds) fd k w w' b h c =
    let (rest, fine) = close_all_round fuel first fds k w w' b h in
    close_all_keeps fuel _ fd k _ w' b rest (inr c)

close_all_closes :
    (fuel : ℕ) (fds : List ℕ) (fd : ℕ) (k : Kernel) (w w' : World)
    → close_all fuel fds k w ≡ done (true, w')
    → In fd fds
    → Closed k fd w'.history
unfolding close_all after_close
close_all_closes zero fds fd k w w' h i = absurd (ground arith)
close_all_closes (suc fuel) [] fd k w w' h i = absurd i
close_all_closes (suc fuel) (first ∷ fds) fd k w w' h i =
    let (rest, fine) = close_all_round fuel first fds k w w' true h in
    elim (Bool-cases (
      (k.reply w.history (close first)).failed
      && (k.reply w.history (close first)).errno == eintr)) [
        | inl again ↦
            close_all_closes fuel (first ∷ fds) fd k _ w' (rw (again, after_close) at rest) i
        | inr over ↦
            let after : close_all fuel fds k (record w { history = close first ∷ w.history })
                ≡ done (true, w') =
              (rw (over, after_close) at rest) in
            elim i [
              | inl same ↦ close_all_keeps fuel fds fd k _ w' true after (
                  inl (
                    subst (λ d. Closes k w.history d (close first)) same
                      (closes first k w.history over fine)))
              | inr j ↦ close_all_closes fuel fds fd k _ w' after j
            ]
      ]

prepared : FilesListener → List ℕ → Reply → M FilesListener
prepared l fds r = pure (record l { fds = l.fds ++ fds; devnull = r.value })

opened : FilesListener → List ℕ → M FilesListener
unfolding prepared
opened l fds = with_errno_check [] (open_file (codes "/dev/null") o_wronly) >>= prepared l fds

same_fds :
    (l p : FilesListener) (fds : List ℕ) (r : Reply) (k : Kernel) (w v : World)
    → prepared l fds r k w ≡ done (p, v)
    → (l.fds ++ fds) ≡ p.fds
unfolding prepared
same_fds l p fds r k w v h =
    let e : ◌≡◌ {A = Outcome (FilesListener × World)}
        (done (record l { fds = l.fds ++ fds; devnull = r.value }, w)) (done (p, v)) =
      h in
    let q : record l { fds = l.fds ++ fds; devnull = r.value } ≡ p = cc in ap (λ f. f.fds) q

on_pre_fork-fds :
    (is_logger_fd : ℕ → Bool) (names : List Text) (l p : FilesListener) (k : Kernel) (w v : World)
    → on_pre_fork is_logger_fd names l k w ≡ done (p, v)
    → (l.fds ++ gather is_logger_fd names) ≡ p.fds
unfolding on_pre_fork opened prepared
on_pre_fork-fds is_logger_fd names l p k w v h =
    let fds = gather is_logger_fd names in
    let (u, w1, e1, rest) =
      >>=-eq-done (with_errno_check_ [] (opendir (codes "/proc/self/fd/"))) (λ x. opened l fds)
        {k = k} {w = w} h in
    let (r, w2, e2, last) =
      >>=-eq-done (with_errno_check [] (open_file (codes "/dev/null") o_wronly)) (prepared l fds)
        {k = k} {w = w1} rest in
    same_fds l p fds r k w2 v last

In-append : (fd : ℕ) (xs ys : List ℕ) → In fd ys → In fd (xs ++ ys)
In-append fd [] ys i = i
In-append fd (x ∷ xs) ys i = inr (In-append fd xs ys i)

-- If the child's set-up of its files returns with all rounds done, then every number that was listed
-- before the fork, other than those of the standard descriptors and of the logger's, was closed:
-- a call of close for it succeeded, or found it closed.
pub on_post_fork_child_closes :
    (is_logger_fd : ℕ → Bool) (names : List Text) (name : Text) (fd fuel : ℕ) (l p : FilesListener)
    (k : Kernel) (w v v' w' : World)
    → on_pre_fork is_logger_fd names l k w ≡ done (p, v)
    → on_post_fork_child fuel p k v' ≡ done (true, w')
    → In name names
    → stoi name ≡ some fd
    → stays_open is_logger_fd fd ≡ false
    → Closed k fd w'.history
unfolding on_post_fork_child
on_post_fork_child_closes is_logger_fd names name fd fuel l p k w v v' w' hp hc i e h =
    let (u, w1, e1, rest) =
      >>=-eq-done (redirect_stderr p.suppress_stderr p.devnull)
        (λ x. with_errno_check_ [] (close p.devnull) >> close_all fuel p.fds) {k = k} {w = v'} hc in
    let (u', w2, e2, last) =
      >>=-eq-done (with_errno_check_ [] (close p.devnull)) (λ x. close_all fuel p.fds) {k = k}
        {w = w1} rest in
    close_all_closes fuel p.fds fd k w2 w' last (
      subst (In fd) (on_pre_fork-fds is_logger_fd names l p k w v hp)
        (In-append fd l.fds _ (gather-In is_logger_fd name names fd i e h)))
