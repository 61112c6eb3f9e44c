-- ===== src/Lib.antt =====
-- f2k reads NetFlow and IPFIX packets of network probes, decodes their flows with the templates
-- that the probes announce, and prints each flow as a line of JSON for Kafka. This library models
-- the decoder and the text that it prints, and proves what they promise.
--
-- Parts, and where they are modelled (paths are from the repository's root).
--
-- src/printbuf.c, src/printbuf.h: the growing buffer of a line. Printbuf.antt has one definition
-- for each function and macro; Printbuf/Append refines an append to the concatenation of bytes.
--
-- src/util.c, append_escaped: text of the network escaped for a JSON string. Escape.antt;
-- Escape/Relation describes what is appended, Escape/Utf8 the characters, Escape/Safe and
-- Escape/Lossless a reader of JSON strings, Escape/Append the theorems about the buffer;
-- Escape/Endless is about strings too long for the index.
--
-- src/util.c and src/export.c, numbers: Number.antt (net2number, _itoa10,
-- printbuf_memappend_fast_n10, _intoaV4), with Number/Wire, Decimal, Print and Dotted.
--
-- src/rb_mac.c and etheraddr_string: Mac.antt, with Mac/Parse, Mac/Form and
-- Mac/Cases.
--
-- src/f2k.h, src/rb_sensor.c, src/template.c and src/dynamic-sensors/src/observation_id:
-- Observation.antt has the templates and the tables of an observation domain (ObservationId).
--
-- src/collect.c, templates: Template.antt (dissect_flow_template) and Template/Set
-- (dissect_option_template, dissectNetFlowV9V10TemplateSet). Template/Flow and Template/Sound are
-- about arbitrary memory, Template/Encode and Template/Batch about what exporters send.
--
-- src/collect.c, data: Collect/Options (dissect_nf9_option_flow, dissect_option_flow_set),
-- Collect/Flow (dissectNetFlowV9V10FlowSetWithTemplate) and Collect/Packet
-- (dissectNetFlowV9V10Flow, dissectNetFlowV9V10Set, dissectNetflowV9V10).
--
-- src/collect.c, src/netflow.h and src/template.c, NetFlow 5: NetFlow5.antt
-- (dissectNetFlowV5Field, dissectNetFlowV5Record, dissectNetFlowV5), which also has dissectNetFlow.
-- NetFlow5/Encode and Flows describe the packets that exporters send, NetFlow5/Decode what is read.
--
-- src/collect.c and src/export.c, time: Time.antt (sanitize_timestamp, the timestamps of
-- time_split_flow, rb_separate_long_time_flow), with Time/Sanitize and Time/Intervals.
--
-- src/export.c, direction: Direction.antt (guessDirection, process_direction, the client and
-- target getters, the words printed), with Direction/Client and Direction/Words.
--
-- src/export.c and src/template.h, the fields: Field.antt (printNetflowRecordWithTemplate and the
-- elements of its table); Field/Saved, Plain, Address, Names and Http have the printing functions,
-- Field/Cache the flow cache and the tables that they look names up in, Field/Table the names of
-- the functions. Field/Line describes the text of the line, a brace and members between commas, Field/Members what an element
-- adds, Field/Object refines one to the other, and Field/Shown gives the value of each function,
-- with the proofs in its child modules. Field/Domain, Milliseconds, Private, Flags and MacMap are
-- about single functions.
--
-- src/rb_listener.c, listeners: Listener.antt (mergeNetFlowListenerList), with Listener/Merge.
--
-- src/rb_dns_cache.c, the cache of names of addresses: DnsCache.antt (dns_cache_new,
-- dns_cache_save_elm, dns_cache_get_elm, dns_cache_decref_elm). DnsCache/Invariant has the count of
-- references, Steps, Updates, Add and Calls what keeps it, DnsCache/Runs the runs of calls.
--
-- Base has the shared helpers, Samples the inputs that the tests share; a module Tests has the
-- runs and examples of its component.
--
-- How they interact: a packet is cut into sets (Collect/Packet). A template set changes the table
-- of the domain through save_template; a data set looks its template up in that table and is cut
-- into records (Collect/Flow), whose fields go to the printing functions, or into option records
-- (Collect/Options), which change the names of the domain. Behind the last field the direction of
-- the flow is guessed (Direction), and the line is spread over the flow's minutes (Time). A line is
-- a Printbuf, to which text is appended with append_escaped and the number functions.
--
-- Conventions. A buffer is a Pointer, the byte at every offset, with a size beside it: a read
-- behind the size gives what the memory holds there, so that no read is left out. Sizes are natural
-- numbers; where the code's size_t or uint16_t can wrap, the wrap is written out (add_size,
-- sub_size, % 2 ^ 16). malloc and realloc are the parameter Allocator, the allocation of a template
-- the parameter enough_memory; ver9_templates is a parameter, the list of the identifiers in the
-- table of src/template.c. In Collect the printing of a field and what follows the last field of a
-- record are behind the interface Printer, in NetFlow5 behind V5Printer. In Field the configured
-- tables, GeoIP and inet_pton are the parameter Databases, and a function pointer is a name with
-- what it points to. In DnsCache the AVL tree of librd is the parameter Avl, the memory a map from
-- pointers to entries, and a call is one step, as it holds the mutex throughout. In Time the
-- product with a double is the parameter scale, of which a theorem asks that a share of less than 2
-- ^ 53 is no more than the whole, and allocation is taken to succeed; in Direction the lookup of a
-- home network is the parameter in_home_net. Log messages are left out, as they change no state.
--
-- Fuel. append_escaped_loop has the length of the string, of which each round takes a byte; that is
-- enough for a string of less than 2 ^ 32 bytes, and no fuel is for a longer one, since the index
-- has 32 bits (Escape/Endless).
-- itoa10_loop has 20 rounds, one for each digit of a 64-bit number; its result is proved to exist.
-- The loops over template sets, data sets and option sets have one round for each byte, which is
-- enough whenever they end. The loop over intervals has 62 rounds, for the 61 minutes that a flow
-- can touch, and one to stop. Out of fuel stands for a loop that does not end, and the results say
-- when that is. The search for a registered domain has one call for each byte of the host, and one
-- to stop; it is proved to be enough.
--
-- Not modelled: the fields of interfaces and of autonomous systems, DNS,
-- template files, GeoIP; the daemon, its sockets and threads (src/f2k.c), Kafka, PF_RING and the
-- configuration (input and output); src/sflow_collect.c, which is not called.
pub mod Base
pub mod Printbuf
pub mod Escape
pub mod Number
pub mod Mac
pub mod Observation
pub mod Template
pub mod Collect
pub mod Direction
pub mod DnsCache
pub mod Field
pub mod Listener
pub mod NetFlow5
pub mod Samples
pub mod Time
