-- ===== src/Lib.antt =====
-- A verification library of the MQSS Client, the C++ library by which programs submit quantum jobs
-- to the Munich Quantum Software Stack and query its resources (src/client.cpp, src/job.cpp,
-- src/resource.cpp, src/clients).
--
-- The client (Client) makes requests through a transport, the abstract class MQSSBaseClient
-- (Transport), and reads the answers, which are JSON texts, as job identifiers, statuses, results
-- (Job) and resources (Resource). There are two transports, one over HTTP (Rest) and one over a
-- RabbitMQ broker (Hpc, by RabbitMq). C programs use the client through the functions of
-- src/c_bindings (CApi), Python programs through the classes of bindings (Python).
--
-- The files and the code:
-- + Common, Common/*: shared names, lists over the native numbers, byte strings for std::string
--   (Bytes), int, unsigned and 64-bit integers (Words), exceptions as values (Effects), optional
--   values (Options), computations over a state (Stateful).
-- + Standard/*: what the code uses of the C++ standard library: std::map (Map), std::regex
--   (Regex), std::stoi (Stoi), std::to_string (ToString), std::get_time (GetTime).
-- + Json: nlohmann::json as a parameter, a record of the operations that are called, and what its
--   documentation says of them; Json/Members looks a key up in an answer.
-- + Transport: MQSSBaseClient of include/mqss/client.h as a record of operations over a world, and
--   the effects of the client: a trace of its requests and sleeps, and exceptions.
-- + Resource: src/resource.cpp and include/mqss/resource.h. extract_coupling_map is
--   extractCouplingMap, extract_gates is extractGates, gate_properties is getGateProterties and
--   resource_of_json the constructor from JSON; the loops over regex matches are read_pairs,
--   read_gates, read_tuples and read_qubits.
-- + Job: src/job.cpp and include/mqss/job.h. to_json is toJson, get_path is getPath,
--   job_result_of_json the constructor of JobResult from JSON. The two derived request classes are
--   the constructors of JobKind. Job/Encoding reads a request as its receiver does.
-- + Client: src/client.cpp. Each operation has the name of its method in snake case; fetch_result
--   is getJobResult without waiting, wait_loop the loop of waitForJobResult. Client/Wait/Progress
--   and Client/Wait/Delivery wait for a server that runs the job and keeps its result, and
--   Client/Service takes a job from its submission to its result. Client/Programs has the programs
--   that use the client, each an interaction that goes on from what a method returned or threw,
--   and compares what they do over two transports. Client/Connect is the constructor, new_client,
--   and MQSSClientCreateClient of src/c_bindings/client.cpp, create_client.
-- + Rest/Url: normalizeUrl of src/clients/rest_client.cpp, over libcurl's URL parser as a
--   parameter.
-- + Rest/Request: the rest of src/clients/rest_client.cpp, over libcurl as a parameter;
--   write_response is writeResponse, request, get, post and del are its methods and rest_client
--   its constructor. Rest/Request/Calls and Rest/Request/Waiting put the client's operations over
--   it. Rest/Remote compares it with a client that speaks to the server directly, and Rest/Jobs
--   takes a job from its submission to its result.
-- + RabbitMq: src/clients/rabbitmq_client.cpp, over the AMQP library as a parameter. A session
--   keeps the calls it has made. RabbitMq/Opened is what connect has found when it succeeds.
-- + Hpc: src/clients/hpc_client.cpp over RabbitMq. exchange is what get and post share; hpc_client
--   is the constructor. Hpc/Broker is a broker that keeps the order of messages, with a service
--   behind it, Hpc/Order makes requests over it, Hpc/Remote compares it with a client that speaks
--   to the service directly, Hpc/Jobs takes a job from its submission to its result, and
--   Hpc/Sharing has several clients at one broker.
-- + CApi: src/c_bindings, over an allocator that may fail. CApi/Heap is malloc and free, by the
--   blocks that are allocated; CApi/JobCounts is MQSSClientGetJobResultCounts of job.cpp,
--   CApi/Timestamps is its parseTimestamp with the three functions that call it, CApi/ResourceInfo
--   is resource.cpp, CApi/Calls is client.cpp with the creation of jobs, and CApi/Handles puts
--   these over a store of the objects that the caller holds, with the functions that free;
--   CApi/Handles/Service submits a job there and waits for its result, over either transport. A
--   pointer argument that is tested for null is a Boolean or an option; an exception that leaves a
--   C function is a throw.
-- + Python: bindings. A class is a table of attributes, and pybind11's conversions of values are a
--   parameter. Python/Views has the read-only attributes of resources, gates and results,
--   Python/Jobs has the setters and getters of include/mqss/job.h, over an object that has the
--   identifier of its last submission too, Python/Client the default arguments of
--   include/mqss/client.h.
-- + Tests/*: runs on samples, with a small JSON library, and a server, a libcurl and a broker that
--   answer from a script.
--
-- Bounds and fuel: wait_loop takes fuel and is given its timeout, which suffices because a round
-- with time left sleeps for at least a second. The timeout is converted from size_t to int as the
-- code does. The matcher of regular expressions and the search for all matches are structural.
-- Qubit numbers are int values, converted to unsigned where the code does.
--
-- Not modelled: the tests; the registration of the Python module, whose client methods are the
-- operations of Client. The C interface has no functions that free resources and gates, so these
-- are left out of CApi/Handles, and an object there is one block with what it owns. The calls cast
-- a job's handle to CircuitJobRequest whatever its kind; they are taken to call the virtual
-- functions of the object's own class. The time zone that mktime knows is a parameter; a field of
-- std::get_time may have fewer digits than its width, and the clock is taken to count nanoseconds,
-- as libstdc++'s does. Memory exhaustion in C++ containers and by new is left out, and so is the
-- time that a request takes. A string that is passed to a C library is taken to have no null byte.
-- The JSON library, libcurl, the AMQP library, the host's name, the random UUID and the server are
-- parameters.
pub mod Common
pub mod Standard
pub mod Json
pub mod Python
pub mod Resource
pub mod Transport
pub mod Job
pub mod Client
pub mod Rest
pub mod RabbitMq
pub mod Hpc
pub mod CApi
mod Tests
