-- ===== src/Stun/Discover/Verdicts.antt =====
-- What the three results of `discover` have to do with one another, whatever is answered.
use go_util.Prelude.{
  ◌≡◌, ◌≢◌, refl, ◌⊎◌, inl, inr, Bool, true, false, not, ◌&&◌, ◌||◌, Option, none, some, ok, err,
  panic, stuck, or_panic, if◌then◌else◌,
}
use go_util.Stun.Consts.{
  NatType, nat_error, nat_unknown, nat_none, nat_blocked, nat_full, nat_symmetric, nat_restricted,
  nat_port_restricted, nat_symmetric_udp_firewall,
}
use go_util.Stun.Library.{Library, UdpAddr, Go, Error, server_addr, no_changed_addr}
use go_util.Stun.Host.{Host}
use go_util.Stun.Response.{Response}
use go_util.Stun.Network.{Run, ◌>>=◌, lift}
use go_util.Stun.Discover.{
  Verdict, found, failed, test1, not_changed, same_ip, same_port, same_host, judged, on_test,
  after_test3, after_changed, classify, after_test2, with_changed, after_test1, discover,
}

-- NATError comes with an error, and every other type without one; a failed call is no error of
-- `discover` itself.
abbrev pub IsConsistent : Go Verdict → Type 0
IsConsistent (ok v) =
    ((v.nat ≡ nat_error) × ((e : Error) × (v.error ≡ some e)))
    ⊎ ((v.nat ≢ nat_error) × (v.error ≡ none))
IsConsistent (err e) = ⊥
IsConsistent panic = Unit
IsConsistent stuck = Unit

found-IsConsistent :
    (nat : NatType) (host : Option Host) → nat ≢ nat_error → IsConsistent (ok (found nat host))
found-IsConsistent nat host ne = inr (ne, refl)

failed-IsConsistent : (host : Option Host) (e : Error) → IsConsistent (ok (failed host e))
failed-IsConsistent host e = inl (refl, (e, refl))

module _ {S : Type 0} (lib : Library)
    (request : Option UdpAddr → Bool → Bool → Run S (Option Response)) where
  -- A run whose verdict is consistent from every state.
  record Sound (m : Run S Verdict) : Type 0 where
    consistent : (s : S) → IsConsistent (m s).0

  Sound-found :
      (nat : NatType) (host : Option Host) → nat ≢ nat_error → Sound (lift (ok (found nat host)))
  Sound-found nat host ne = record { consistent = λ s. found-IsConsistent nat host ne }

  Sound-failed : (host : Option Host) (e : Error) → Sound (lift (ok (failed host e)))
  Sound-failed host e = record { consistent = λ s. failed-IsConsistent host e }

  Sound-if : (b : Bool) {f g : Run S Verdict} → Sound f → Sound g → Sound (if b then f else g)
  Sound-if true h k = h
  Sound-if false h k = k

  -- A nil dereference panics, else the value goes on.
  Sound-deref :
      {A : Type 0} (o : Option A) (f : A → Run S Verdict)
      → ((a : A) → Sound (f a))
      → Sound (lift (or_panic o) >>= f)
  Sound-deref none f h = record { consistent = λ s. tt }
  Sound-deref (some a) f h = record { consistent = (h a).consistent }

  Sound-on_test :
      (mapped : Option Host) (test : Run S (Option Response)) (k : Option Response → Run S Verdict)
      → ((r : Option Response) → Sound (k r))
      → Sound (on_test lib request mapped test k)
  unfolding on_test
  Sound-on_test mapped test k h = record { consistent = λ s. judge (test s).0 (test s).1 }
    where
      judge : (r : Go (Option Response)) (s : S) → IsConsistent (judged lib request mapped r k s).0
      judge (ok resp) s = (h resp).consistent s
      judge (err e) s = failed-IsConsistent mapped e
      judge panic s = tt
      judge stuck s = tt

  Sound-after_test3 :
      (mapped : Option Host) (caddr : UdpAddr) (r : Option Response)
      → Sound (after_test3 lib request mapped caddr r)
  unfolding after_test3
  Sound-after_test3 mapped caddr none = Sound-found nat_port_restricted mapped (λ e. cc)
  Sound-after_test3 mapped caddr (some resp) =
      Sound-deref resp.server_addr _
        λ sender. choose (not (same_ip lib sender caddr) || same_port sender caddr)
    where
      choose :
          (b : Bool)
          → Sound (lift (ok (if b then failed mapped server_addr else found nat_restricted mapped)))
      choose true = Sound-failed mapped server_addr
      choose false = Sound-found nat_restricted mapped (λ e. cc)

  Sound-after_changed :
      (mapped : Option Host) (caddr : Option UdpAddr) (r : Option Response)
      → Sound (after_changed lib request mapped caddr r)
  unfolding after_changed
  Sound-after_changed mapped caddr none = Sound-found nat_unknown mapped (λ e. cc)
  Sound-after_changed mapped caddr (some resp) = Sound-deref resp.server_addr _ λ sender.
      Sound-deref caddr _ λ to.
        Sound-if (not (same_ip lib sender to && same_port sender to))
          (Sound-failed mapped server_addr)
          (Sound-deref mapped _ λ first. Sound-deref resp.mapped_addr _ λ second.
            Sound-if (same_host first second)
              (Sound-on_test mapped _ _ (Sound-after_test3 mapped to))
              (Sound-found nat_symmetric mapped (λ e. cc)))

  Sound-classify :
      (identical : Bool) (r : Option Response) (mapped : Option Host) (changed : Host)
      → Sound (classify lib request identical r mapped changed)
  unfolding classify
  Sound-classify true none mapped changed = Sound-found nat_symmetric_udp_firewall mapped (λ e. cc)
  Sound-classify true (some resp) mapped changed = Sound-found nat_none mapped (λ e. cc)
  Sound-classify false (some resp) mapped changed = Sound-found nat_full mapped (λ e. cc)
  Sound-classify false none mapped changed = Sound-on_test mapped _ _ (Sound-after_changed mapped _)

  Sound-after_test2 :
      (addr : UdpAddr) (identical : Bool) (mapped : Option Host) (changed : Host)
      (r : Option Response)
      → Sound (after_test2 lib request addr identical mapped changed r)
  unfolding after_test2
  Sound-after_test2 addr identical mapped changed none =
      Sound-classify identical none mapped changed
  Sound-after_test2 addr identical mapped changed (some resp) = from resp.server_addr
    where
      from :
          (o : Option Host)
          → Sound (
              lift (not_changed lib addr o) >>= λ unchanged.
              if unchanged
              then lift (ok (failed mapped server_addr))
              else classify lib request identical (some resp) mapped changed)
      from none = record { consistent = λ s. tt }
      from (some sender) = record {
        consistent =
            (Sound-if (same_ip lib sender addr || same_port sender addr)
              (Sound-failed mapped server_addr)
              (Sound-classify identical (some resp) mapped changed)).consistent;
      }

  Sound-with_changed :
      (addr : UdpAddr) (resp : Response) (changed : Option Host)
      → Sound (with_changed lib request addr resp changed)
  unfolding with_changed
  Sound-with_changed addr resp none = Sound-failed resp.mapped_addr no_changed_addr
  Sound-with_changed addr resp (some changed) =
      Sound-on_test resp.mapped_addr _ _
        (Sound-after_test2 addr resp.identical resp.mapped_addr changed)

  Sound-after_test1 :
      (addr : UdpAddr) (r : Option Response) → Sound (after_test1 lib request addr r)
  unfolding after_test1
  Sound-after_test1 addr none = Sound-found nat_blocked none (λ e. cc)
  Sound-after_test1 addr (some resp) = Sound-deref resp.server_addr _ λ sender.
      Sound-if (not (same_ip lib sender addr && same_port sender addr))
        (Sound-failed resp.mapped_addr server_addr) (Sound-with_changed addr resp _)

  -- Whatever is answered, `discover` returns NATError exactly when it returns an error.
  pub discover-IsConsistent :
      (addr : UdpAddr) (s : S) → IsConsistent (discover lib request addr s).0
  unfolding discover
  discover-IsConsistent addr s =
      (Sound-on_test none (test1 lib request (some addr)) _ (Sound-after_test1 addr)).consistent s
