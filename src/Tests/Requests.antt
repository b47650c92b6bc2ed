-- ===== src/Tests/Requests.antt =====
-- Categories, lookups and whole requests, with a small database.
use haproxy_spoa_firehol_mmd.Prelude.{
  ℕ, suc, ◌+◌, ◌%◌, ◌^◌, ◌≡◌, ◌≢◌, refl, Bool, true, false, ◌||◌, List, [], ◌∷◌, ◌++◌, none, some,
  arith, if◌then◌else◌, bytes_eq,
}
use haproxy_spoa_firehol_mmd.Prelude.Lists.{replicate}
use haproxy_spoa_firehol_mmd.Prelude.Int.{pos}
use haproxy_spoa_firehol_mmd.Prelude.Text.{ascii}
use haproxy_spoa_firehol_mmd.Prelude.Result.{ok}
use haproxy_spoa_firehol_mmd.Spoa.Writer.{Endian}
use haproxy_spoa_firehol_mmd.Spoa.TypedData.{TypedType, TypedData}
use haproxy_spoa_firehol_mmd.Spoa.Message.{Arg, Message}
use haproxy_spoa_firehol_mmd.Spoa.Frame.{FrameType, arg}
use haproxy_spoa_firehol_mmd.Spoa.Frame.Sizes.{fields_wire}
use haproxy_spoa_firehol_mmd.Spoa.Parse.{Notify, InFrame, hello, disconnect, notify, u32}
use haproxy_spoa_firehol_mmd.Spoa.Parse.Kind.{kind}
use haproxy_spoa_firehol_mmd.Spoa.Parse.Fields.{payload}
use haproxy_spoa_firehol_mmd.Spoa.Parse.Hello.{last_value}
use haproxy_spoa_firehol_mmd.Spoa.Parse.Messages.{messages_wire}
use haproxy_spoa_firehol_mmd.Spoa.Categories.{
  Categories, load, load_tokens, split, pieces, find, try_emplace, names, names_string, join_names,
  keys, sort, insert, bytes_lt, blocked, match_first,
}
use haproxy_spoa_firehol_mmd.Spoa.Categories.Counting.{
  IsConfigured, first_configured, is_name, match_first_lem,
}
use haproxy_spoa_firehol_mmd.Spoa.Categories.Load.{is_listed, load_lem}
use haproxy_spoa_firehol_mmd.Spoa.Database.{
  LookupResult, EntryData, DataType, Library, parse_ipv6, get_categories, category_array,
  category_at, collect_loop, to_chars, digits_loop,
}
use haproxy_spoa_firehol_mmd.Spoa.Database.Address.{parse_ipv6_nul}
use haproxy_spoa_firehol_mmd.Utils.Strings.{
  trim, find_first_not_of, find_last_not_of, is_whitespace,
}
use haproxy_spoa_firehol_mmd.Spoa.Agent.{
  Agent, send, evaluate_lookup, evaluate_messages, handle_notify, handle_frame,
}
use haproxy_spoa_firehol_mmd.Spoa.Agent.Lookup.{
  counted_lookup, found_categories, is_some, evaluate_lookup_lem,
}
use haproxy_spoa_firehol_mmd.Spoa.Agent.Evaluate.{any_bad, any_unsupported, all_args, hits}
use haproxy_spoa_firehol_mmd.Spoa.Agent.Loop.{evaluate_messages_lem}
use haproxy_spoa_firehol_mmd.Spoa.Agent.Answer.{reply_to, with_length, handle_notify_lem}
use haproxy_spoa_firehol_mmd.Spoa.Agent.Hello.{answer_hello}
use haproxy_spoa_firehol_mmd.Spoa.Agent.Session.{
  handle_frame-messages, handle_frame-hello, handle_frame-unexpected,
}

abbrev config : List ℕ
config = ascii "tor, abuse,,abuse "

config_loaded : load config ≡ (ascii "abuse", 0) ∷ (ascii "tor", 0) ∷ []
unfolding load load_tokens split pieces find try_emplace trim find_first_not_of find_last_not_of
    is_whitespace bytes_eq
config_loaded = refl

abbrev categories : Categories
categories = (ascii "tor", 0) ∷ (ascii "abuse", 2) ∷ []

names_of_categories : names_string categories ≡ ascii "abuse, tor"
unfolding names_string names join_names keys sort insert bytes_lt
names_of_categories = refl

-- An entry for one address, with the categories "proxy" and "abuse".
abbrev found : LookupResult
found = record { found_entry = true; entry = 5 }

abbrev missing : LookupResult
missing = record { found_entry = false; entry = 0 }

abbrev texts : List ℕ → EntryData
texts step = record {
  type = DataType.type_utf8_string;
  offset = 0;
  data_size = 5;
  bytes = if bytes_eq step (ascii "0") then ascii "proxy" else ascii "abuse";
}

abbrev two_texts : EntryData
two_texts = record { type = DataType.type_array; offset = 9; data_size = 2; bytes = [] }

abbrev database : Library
database = record {
  lookup_sockaddr =
      λ octets. (if bytes_eq octets (203 ∷ 0 ∷ 113 ∷ 7 ∷ []) then found else missing, pos 0);
  lookup_name = λ text. (missing, pos 1, pos 0);
  get_value =
      λ offset step. if bytes_eq step (ascii "category") then some two_texts else some (texts step);
  inet_pton = λ text. none;
  invalid_data_error = pos 7;
}

categories_of_entry : get_categories database found ≡ ascii "proxy" ∷ ascii "abuse" ∷ []
unfolding get_categories category_array category_at collect_loop to_chars digits_loop bytes_eq
categories_of_entry = refl

abbrev agent : Agent
agent = record { drop_categories = categories; lookups = 0; lookup_errors = 0 }

categories-IsConfigured : IsConfigured categories
categories-IsConfigured = (refl, omega arith, (refl, omega arith, tt))

abbrev src : List Arg
src = arg (ascii "src") (TypedData.ipv4 (203 ∷ 0 ∷ 113 ∷ 7 ∷ [])) ∷ []

abbrev messages : List Message
messages = record { name = ascii "check"; args = src } ∷ []

abbrev flags : List ℕ
flags = 0 ∷ 0 ∷ 0 ∷ 1 ∷ []

abbrev stack_buf : List ℕ
stack_buf = replicate 64 204

match_first_lem_example :
    let cs = ascii "proxy" ∷ ascii "abuse" ∷ ascii "tor" ∷ [] in
    let (matched, m') = match_first cs categories in
    (matched ≡ elim (first_configured cs categories) [ none ↦ [] | some c ↦ c ])
    × IsConfigured m'
    × ((name : List ℕ)
        → blocked name m' ≡ (
            if is_name name (first_configured cs categories)
            then (blocked name categories + 1) % 2 ^ 64
            else blocked name categories))
match_first_lem_example =
    match_first_lem (ascii "proxy" ∷ ascii "abuse" ∷ ascii "tor" ∷ []) categories
      categories-IsConfigured

load_lem_example :
    IsConfigured (load config)
    × ((name : List ℕ)
        → find name (load config) ≡ (if is_listed name (split b',' config) then some 0 else none))
load_lem_example = load_lem config

-- A visitor that counts and stops after two.
abbrev count_two : List ℕ → ℕ → ℕ × Bool
count_two category n = (suc n, if bytes_eq category (ascii "abuse") then false else true)

parse_ipv6_nul_example :
    parse_ipv6 database (ascii "::1" ++ (0 ∷ ascii "junk")) ≡ parse_ipv6 database (ascii "::1")
parse_ipv6_nul_example =
    parse_ipv6_nul database (ascii "::1") (ascii "junk") (omega arith) (omega arith)

evaluate_lookup_lem_example : evaluate_lookup true database (found, pos 0) (agent, false) ≡ (
  counted_lookup database (found, pos 0) agent,
  false || is_some (first_configured (found_categories database (found, pos 0)) categories),
)
evaluate_lookup_lem_example =
    evaluate_lookup_lem true database found (pos 0) agent false categories-IsConfigured

evaluate_messages_lem_example :
    let args = all_args messages in
    let e' =
      evaluate_messages false
        (some database)
        messages
        (record { agent = agent; ip_bad = false; not_implemented = false }) in
    (e'.ip_bad ≡ any_bad (some database) categories args)
    × (e'.not_implemented ≡ any_unsupported args)
    × ((name : List ℕ)
        → blocked name e'.agent.drop_categories
          ≡ (blocked name categories + hits name (some database) categories args) % 2 ^ 64)
evaluate_messages_lem_example =
    evaluate_messages_lem false (some database) messages agent categories-IsConfigured

abbrev request : Notify
request = record { stream_id = 7; frame_id = 1; messages = messages }

handle_notify_lem_example :
    (handle_notify Endian.little false (some database) stack_buf request agent).0
    ≡ ok (
        reply_to 7 1
          (any_bad (some database) categories (all_args messages))
          (any_unsupported (all_args messages)))
handle_notify_lem_example =
    handle_notify_lem Endian.little false (some database) stack_buf request agent refl (omega arith)
      (omega arith) categories-IsConfigured

handle_frame-messages_example :
    let (reply, agent') =
      handle_frame Endian.little false
        (some database)
        stack_buf
        FrameType.notify
        (payload flags 7 1 (messages_wire messages))
        agent in
    (reply
      ≡ reply_to 7 1
          (any_bad (some database) categories (all_args messages))
          (any_unsupported (all_args messages)))
    × ((name : List ℕ)
        → blocked name agent'.drop_categories
          ≡ (blocked name categories + hits name (some database) categories (all_args messages))
            % 2 ^ 64)
handle_frame-messages_example =
    handle_frame-messages Endian.little false (some database) stack_buf flags 7 1 messages agent
      refl refl (omega arith) (omega arith) (omega arith) categories-IsConfigured

abbrev hello_args : List Arg
hello_args = arg (ascii "max-frame-size") (TypedData.uint32 16380) ∷ []

handle_frame-hello_example :
    handle_frame Endian.little false none stack_buf FrameType.haproxy_hello
      (payload flags 0 0 (fields_wire hello_args))
      agent
    ≡ (
      send false (
          with_length (
            answer_hello 0 0
              (last_value (ascii "max-frame-size") TypedType.uint32 u32 0 hello_args))),
      agent,
    )
handle_frame-hello_example =
    handle_frame-hello Endian.little false none stack_buf flags 0 0 hello_args agent refl
      (omega arith) (omega arith) (omega arith)

not_agent_ack : (g : InFrame) → kind g ≢ FrameType.agent_ack
unfolding kind
not_agent_ack (hello h) e = cc
not_agent_ack (disconnect d) e = cc
not_agent_ack (notify n) e = cc

handle_frame-unexpected_example :
    handle_frame Endian.little false none stack_buf FrameType.agent_ack flags agent
    ≡ (send true [], agent)
handle_frame-unexpected_example =
    handle_frame-unexpected Endian.little false none stack_buf FrameType.agent_ack flags agent
      not_agent_ack
