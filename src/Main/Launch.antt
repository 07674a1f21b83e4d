-- ===== src/Main/Launch.antt =====
-- src/main.rs: how `main` comes up to the server, with an error for each step that fails, and how it
-- ends with the server. What other crates and the system do in a step is a parameter.
use blahaj.Prelude.{List, ◌⊎◌, inl, inr, Option, none, some}
use blahaj.Prelude.Text.{Str, codes}
use blahaj.Config.{Config, Program, SocketAddr}
use blahaj.Config.Document.{Deserializer, read_config}
use blahaj.CtrlcHandler
use blahaj.CtrlcHandler.{SignalHandler}
use blahaj.Proxy.{ProxyConfig}
use blahaj.Supervisor.Fleet
use blahaj.Supervisor.Fleet.{Supervisor}
use blahaj.Main.{Services, proxy_config, services}

-- `eyre::Report`: an error, with what was wrapped round it.
pub record Report : Type 0 where
  pub context : Option Str
  pub cause : Str

infixl 5 ◌>>=◌
abbrev pub ◌>>=◌ {ℓ κ} : {A : Type ℓ} {B : Type κ} → Report ⊎ A → (A → Report ⊎ B) → Report ⊎ B
inl e >>= f = inl e
inr a >>= f = f a

-- `?` on another crate's error, and the same behind `wrap_err`.
abbrev pub question : {A : Type 0} → Str ⊎ A → Report ⊎ A
question (inl e) = inl (record { context = none; cause = e })
question (inr a) = inr a

abbrev pub wrap_err : {A : Type 0} → Str → Str ⊎ A → Report ⊎ A
wrap_err text (inl e) = inl (record { context = some text; cause = e })
wrap_err text (inr a) = inr a

-- What the steps of `main` come to: `color_eyre::install`, the start of `flexi_logger` at a level,
-- `File::open`, the nodes of a file that is YAML, the error for a file whose nodes are no
-- configuration, and `bind` of the server.
pub record Host (File Node Server : Type 0) : Type 0 where
  pub install : Str ⊎ Unit {0}
  pub start_log : Str → Str ⊎ Unit {0}
  pub open_file : Str → Str ⊎ File
  pub parse : File → Str ⊎ Node
  pub no_config : Node → Str
  pub listen : SocketAddr → Services → ProxyConfig → Str ⊎ Server

-- What runs when `main` awaits the server.
pub record Launched (Addr Handle Server : Type 0) : Type 0 where
  pub supervisor : Supervisor Addr
  pub signal_handler : SignalHandler Handle
  pub serving_at : SocketAddr
  pub server : Server

module _ {File Node Server : Type 0} (host : Host File Node Server) (de : Deserializer Node)
    (expand : Str → Str ⊎ Str) (words : Str → List Str) where
  -- `serde_yaml::from_reader`.
  unfoldable pub from_reader : File → Str ⊎ Config
  from_reader f = elim (host.parse f) [
    | inl e ↦ inl e
    | inr node ↦ elim (read_config de expand words node) [
      | some config ↦ inr config
      | none ↦ inl (host.no_config node)
    ]
  ]

  -- `main` up to the server, with the path that the arguments give.
  unfoldable pub launch :
      {Addr Handle : Type 0} → (Str → Program → Addr) → Str → Report ⊎ Launched Addr Handle Server
  unfolding from_reader proxy_config services
  launch start_caretaker path = do
    installed ← question host.install
    logs ← question (host.start_log (codes "info"))
    f ← wrap_err (codes "Failed to read config file.") (host.open_file path)
    config ← wrap_err (codes "Illegal config format.") (from_reader f)
    let supervisor = Fleet.start start_caretaker config.programs
    server ← question (host.listen config.bind (services config) (proxy_config config))
    inr (record {
      supervisor = supervisor;
      signal_handler = CtrlcHandler.new;
      serving_at = config.bind;
      server = server;
    })

-- `main` from there on: the server ends, by itself or since it is told to stop.
unfoldable pub finish : Str ⊎ Unit {0} → Report ⊎ Unit {0}
finish ended = wrap_err (codes "Server crashed.") ended
