-- ===== src/Lib.antt =====
-- websocket_proxy: clients on one machine share websocket connections through a server process. They
-- write requests into a queue in shared memory, wait for the server to set the status in the request,
-- and read what the server publishes, above all what it reads from the connections, in another queue.
--
-- The parts and their files, with the code that each one models:
--   Protocol         the messages (include/websocket_proxy/types.h). A char array is the list of its
--                    bytes, the type of a message is the constructor of its body.
--   Layout           how many bytes a message takes (the packed structures of
--                    include/websocket_proxy/types.h).
--   Url              the URL handling in the constructor of Websocket (src/websocket.h).
--   Server.State     the members of WebsocketProxy and Websocket (src/websocket_proxy.h,
--                    src/websocket.h). Objects that the maps and the coroutines share stand in a heap;
--                    the maps hold their addresses. What the program asks of a library is an effect in
--                    a log, the newest first.
--   Server.Callbacks sendMessageToClient, sendHeartbeat, onWsOpened, onWsClosed, onWsError, onWsData,
--                    reserveMessage (src/websocket_proxy.cpp, src/websocket_proxy.h).
--   Server.Sockets   close, send, on_write, on_read, on_close, fail (src/websocket.h).
--   Server.Clients   getClient, handleClientRegistration, unregisterClient, closeWs, checkHeartbeats,
--                    startHeartbeat (src/websocket_proxy.cpp).
--   Server.Requests  openWs, openNewWs with its callback, and the coroutine Websocket::open.
--   Server.Subscriptions
--                    handleSubscribe, handleUnsubscribe, sendWsRequest.
--   Server.Loop      handleClientMessage, processClientMessage, removeClosedSockets, shutdown.
--   Server.Steps     the process as a transition system: any function that was posted may run, any
--                    opening may begin or end, any operation on a socket may end, in any order,
--                    whether or not it has been begun.
--   Registry         the abstract specification of the socket maps: ids, keys and openings, with the
--                    moves that change them. Registry.Invariant and Registry.Consistent are about it,
--                    Server.View maps the states and the steps of the process to it.
--   Server.Core, Server.Handles, Server.Lifetime, Server.Idling, Server.Ending,
--   Server.Deafness
--                    what the handlers leave alone, and the life of the process.
--   Server.Telling, Server.Published
--                    what the operations and the steps publish.
--   Server.Sharing, Server.Departure, Server.Closing, Server.Shutdown, Server.Subscribing,
--   Server.Unsubscribing, Server.Delivery, Server.Failing, Server.Ended
--                    the behaviour of the operations.
--   Owner            the processes that contend for the word owner_pid_ in shared memory: the
--                    constructor, the destructor and the start of run (src/websocket_proxy.cpp), as a
--                    step relation in which each access to the word is a move. Owner.Exclusion,
--                    Owner.Fairness, Owner.Serving, Owner.Takeover, Owner.Counting and
--                    Owner.Deciding are about it.
--   Client.State     the members of WebsocketProxyClient, sendMessage, sendHeartbeat, unregister,
--                    reserveMessage (include/websocket_proxy/websocket_proxy_client.h). The requests
--                    and the calls of WebsocketProxyCallback stand in a log, the newest first.
--   Client.Waiting   waitForResponse, waitForServerReady and the wait for the process to start.
--   Client.Connecting
--                    connect, spawnWebsocketsProxyServer, _register.
--   Client.Requests  openWebSocket, openWebSocketAsync, closeWebSocket, subscribe, unsubscribe,
--                    setLogLevel, send, the destructor.
--   Client.Worker    doWork with handleWsOpen, handleWsClose, handleWsError, handleWsData.
--   Client.Steps     a client as a transition system: calls and rounds of the worker, in any order. A
--                    step is a whole call or a whole round.
--   Client.Quiet, Client.Callbacks, Client.Faithful, Client.Noticed, Client.Silence,
--   Client.Halting, Client.Answers, Client.Answered, Client.Sent, Client.Sending
--                    what the calls leave alone, what the user is told, the ends of the loops, the
--                    answers, and what is sent.
--   Exchange         the two programs together: what one publishes, the other one handles.
--   World            any number of servers and clients as one transition system. A read of a queue
--                    returns nothing or a message that was written to it. World.Backed and World.Told
--                    are about what the users are told.
--   Arguments        the command lines (src/main.cpp, and example/main.cpp in Arguments.Example).
--   Alpaca           the example's client (example/alpaca_websocket_client.h).
--   Base             tests, lists, association lists, sets, decimal numbers.
--   Examples         tests, and the theorems at concrete inputs.
--
-- Numbers are natural; where the code computes over uint64_t, uint32_t or uint16_t the wrap-around is
-- written out. The counter of sockets is a uint32_t: what is stated of reached states is stated while
-- it does not wrap. An exception that leaves a handler is an outcome of it. The loops run over lists;
-- to_string takes n + 1 rounds for n, and each round divides by ten. The loops of a
-- client that wait run on fuel, which a result of its own shows to be used up; each round reads the
-- clock, so that the fuel is enough once it is as large as the number of readings until the clock has
-- passed the limit.
--
-- Parameters, for code outside the repository: the clock (a function of the number of the reading),
-- what the queues return when they are read, and how each operation of Boost.Asio and Boost.Beast
-- ends, with its error and its bytes. A read without an error ends with a message appended to the
-- buffer. For a client: what each load of a request's status returns, the answer that the request
-- holds then, whether processes run and can be launched, and whether the queues open. std::stoi, atoi
-- and the string functions are written out as their documentation says.
--
-- Not modelled: the order of the fields in memory, the inside of the queues, what happens once ioc_.stop has run, logging, the failures of
-- the system's calls that throw, the program's path and the list of the system's processes, whose
-- functions only read what the system answers, interleavings of a client's two threads within a call, the bytes behind a symbol
-- that is longer than its array, and the JSON library of the example, which is a parameter of Alpaca. A
-- url or an api_key that fills its array without a NUL is cut at the array's end.
pub mod Base
pub mod Protocol
pub mod Layout
pub mod Url
pub mod Server
pub mod Registry
pub mod Client
pub mod Exchange
pub mod World
pub mod Owner
pub mod Arguments
pub mod Alpaca
mod Examples
