-- ===== src/Main/Valid.antt =====
-- Which configuration crates/sleepytale/src/main.rs serves.
use sleepytale.Base.{
  ◌≡◌, ◌↔◌, ap, sym, refl, true, false, Option, none, some, List, Bool-cases, inl, inr,
}
use sleepytale.Base.Bytes.{Bytes}
use sleepytale.Base.Result.{Result, ok, err, ◌>>=◌, ◌>>◌}
use sleepytale.Config.{Config, default_config}
use sleepytale.Config.Validate.{Check, validate}
use sleepytale.Sni.Keys.{Crypto}
use sleepytale.Runtime.{Os}
use sleepytale.Proxy.{State}
use sleepytale.Proxy.Run.{Input}
use sleepytale.Proxy.Serve.{Sockets, ServeError, serve}
use sleepytale.Main.{
  Cli, Files, Exit, printed, shut_down, load, chosen, act, main, MainError, invalid, unparsable,
  unreadable, checked, or_error, unrendered, finished,
}

-- The default configuration, or what the file parses to.
abbrev pub IsChosen : Files → Option Bytes → Config → Type 0
IsChosen files none c = c ≡ default_config
IsChosen files (some path) c =
    (text : Bytes) × (files.read path ≡ some text) × (files.parse text ≡ some c)

-- What a configuration is used for.
module _ (files : Files) {Prk B : Type 0} (sockets : Sockets) (crypto : Crypto Prk)
    (os : Os B) where
  abbrev pub Does : Cli → List Input → Config → Exit B → Type 0
  Does cli inputs c (printed text) = (cli.print_config ≡ true) × (files.render c ≡ some text)
  Does cli inputs c (shut_down s) =
      (cli.print_config ≡ false) × (serve sockets crypto os c inputs ≡ ok s)

ok_checked : (m : Check) (c d : Config) → (checked m invalid >> ok d) ≡ ok c → (m ≡ ok tt) × (c ≡ d)
ok_checked (ok u) c d h = (refl, cc)
ok_checked (err e) c d h = absurd cc

module _ (files : Files) where
  parsed :
      (o : Option Config) (e : MainError) (c : Config)
      → (or_error o e >>= λ config. checked (validate config) invalid >> ok config) ≡ ok c
      → (o ≡ some c) × (validate c ≡ ok tt)
  parsed none e c h = absurd cc
  parsed (some d) e c h =
      let (v, same) = ok_checked (validate d) c d h in (ap some (sym same), rw same v)

  read_lem :
      (o : Option Bytes) (e : MainError) (path : Bytes) (c : Config)
      → (or_error o e >>= λ text. or_error (files.parse text) (unparsable path) >>= λ config.
          checked (validate config) invalid >> ok config)
        ≡ ok c
      → ((text : Bytes) × (o ≡ some text) × (files.parse text ≡ some c)) × (validate c ≡ ok tt)
  read_lem none e path c h = absurd cc
  read_lem (some text) e path c h =
      let (p, v) = parsed (files.parse text) (unparsable path) c h in ((text, refl, p), v)

  chosen_lem :
      (o : Option Bytes) (c : Config)
      → (chosen files o ≡ ok c) ↔ (IsChosen files o c × (validate c ≡ ok tt))
  unfolding load
  chosen_lem none c = (
    λ h.
        (let (v, same) = ok_checked (validate default_config) c default_config h in
          (same, rw same v)),
    λ (same, v). rw (rw same at v) (ap ok (sym same)),
  )
  chosen_lem (some path) c =
      (read_lem (files.read path) (unreadable path) path c, λ ((text, r, p), v). rw (r, p, v) refl)

bind_ok :
    {A B : Type 0} (m : Result MainError A) (f : A → Result MainError B) (b : B)
    → (m >>= f) ≡ ok b
    → (a : A) × (m ≡ ok a) × (f a ≡ ok b)
bind_ok (ok a) f b h = (a, refl, h)
bind_ok (err e) f b h = absurd cc

module _ {B : Type 0} where
  rendering :
      (o : Option Bytes) (e : MainError) (text : Bytes)
      → ◌≡◌ {A = Result MainError (Exit B)}
          (or_error o e >>= λ t. ok (printed t))
          (ok (printed text))
        ↔ (o ≡ some text)
  rendering none e text = (λ h. absurd cc, λ h. absurd cc)
  rendering (some t) e text = (λ h. cc, λ h. cc)

  rendered :
      (o : Option Bytes) (e : MainError) (s : State B)
      → (or_error o e >>= λ t. ok (printed t)) ≡ ok (shut_down s)
      → ⊥
  rendered none e s h = absurd cc
  rendered (some t) e s h = absurd cc

  finishing :
      (m : Result ServeError (State B)) (s : State B) → (finished m ≡ ok (shut_down s)) ↔ (m ≡ ok s)
  finishing (ok t) s = (λ h. cc, λ h. cc)
  finishing (err e) s = (λ h. absurd cc, λ h. absurd cc)

  unfinished : (m : Result ServeError (State B)) (text : Bytes) → finished m ≡ ok (printed text) → ⊥
  unfinished (ok t) text h = absurd cc
  unfinished (err e) text h = absurd cc

module _ (files : Files) {Prk B : Type 0} (sockets : Sockets) (crypto : Crypto Prk)
    (os : Os B) where
  acts :
      (cli : Cli) (inputs : List Input) (c : Config) (e : Exit B)
      → (act files sockets crypto os cli inputs c ≡ ok e)
        ↔ Does files sockets crypto os cli inputs c e
  acts cli inputs c (printed text) = elim (Bool-cases cli.print_config) [
    | inl on ↦
        let r = rendering (files.render c) unrendered text in
        rw on (λ h. (refl, r.0 h), λ h. r.1 h.1)
    | inr off ↦
        rw off (λ h. absurd (unfinished (serve sockets crypto os c inputs) text h), λ h. absurd cc)
  ]
  acts cli inputs c (shut_down s) = elim (Bool-cases cli.print_config) [
    | inl on ↦ rw on (λ h. absurd (rendered (files.render c) unrendered s h), λ h. absurd cc)
    | inr off ↦
        let r = finishing (serve sockets crypto os c inputs) s in
        rw off (λ h. (refl, r.0 h), λ h. r.1 h.1)
  ]

  -- The program comes to an end without an error exactly with a configuration that is accepted: the
  -- default one, or what the file that was named parses to. It then prints that configuration, or
  -- serves it.
  pub main-ok_iff :
      (cli : Cli) (inputs : List Input) (e : Exit B)
      → (main files sockets crypto os cli inputs ≡ ok e) ↔ (
          (c : Config) × IsChosen files cli.config c
          × (validate c ≡ ok tt)
          × Does files sockets crypto os cli inputs c e)
  unfolding main
  main-ok_iff cli inputs e = (
    λ h.
        (let (c, picked, done) =
            bind_ok (chosen files cli.config) (act files sockets crypto os cli inputs) e h in
          let (is, v) = (chosen_lem files cli.config c).0 picked in
          (c, is, v, (acts cli inputs c e).0 done)),
    λ (c, is, v, does).
        rw ((chosen_lem files cli.config c).1 (is, v)) ((acts cli inputs c e).1 does),
  )
